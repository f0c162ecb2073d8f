-- ===== src/Upload/Commit.antt =====
-- `putUploadContent`, `commitUpload` and `abortUpload` of crates/passalong-server-core/src/upload.rs.
use passalong_server.Base.{
  ℕ, ◌+◌, Bool, true, false, ◌&&◌, List, Option, none, some, ◌==◌, if◌then◌else◌, take, holds,
}
use passalong_server.Error.{ok, or_fail, content_mismatch, not_found}
use passalong_server.Ids.{Bytes, ItemId, UploadId, content_key, hex, Text-discrete}
use passalong_server.Map
use passalong_server.Map.Order.{nat_ord, text_ord}
use passalong_server.Record.{
  Caller, UploadRequest, PutOutcome, Ticket, Tombstone, WorkspaceRecord, remove_staging,
}
use passalong_server.Rules.{
  M, Env, MetaSays, ◌>>=◌, ◌>>◌, pure, refuse, lift, asks, looks, on_shelf, update, push_after,
}
use passalong_server.Shelf.{ItemShelf, StoredItem, Chunk}
use passalong_server.Upload.{upload_target, tombstone, live_ticket, checks_content}
use passalong_server.Views.{add_used, find_in}

-- What `meta` says against what was written: the digest in hex, the size, and the content key as
-- the digest's first 12 digits.
abbrev is_honest : UploadRequest → Option Bytes → MetaSays → Bool
is_honest request none says = false
is_honest request (some digest) says = elim says.sha256 [
  | none ↦ false
  | some said_sha ↦ elim says.size [
    | none ↦ false
    | some said_size ↦
        holds (Text-discrete (hex digest) said_sha)
        && said_size == request.size
        && holds (Text-discrete (content_key request.id) (take 12 (hex digest)))
  ]
]

abbrev pub record_outcome : UploadId → Tombstone → WorkspaceRecord → WorkspaceRecord
record_outcome upload stone rec = record rec {
  uploads = record {
    tickets = Map.remove upload rec.tickets;
    tombstones = Map.insert upload stone rec.tombstones;
  };
}

abbrev pub book : ℕ → ℕ → WorkspaceRecord → WorkspaceRecord
book generation bytes rec = record rec { used = Map.insert generation bytes rec.used }

module _ (sh : ItemShelf) (env : Env) where
  unfoldable pub check_plaintext : UploadId → UploadRequest → M sh.State (Unit {0})
  check_plaintext upload request = do
    says ← lift (or_fail content_mismatch (env.from_slice request.meta))
    digest ← looks (sh.stage_digest upload)
    if is_honest request digest says then pure tt else refuse content_mismatch

  -- The stream goes to the shelf only for a live upload that has no outcome yet.
  unfoldable pub put_upload_content : Caller → UploadId → List Chunk → M sh.State (Unit {0})
  unfolding tombstone live_ticket checks_content
  put_upload_content caller upload content = do
    stone ← asks (λ rec. ok (tombstone rec env.now caller upload))
    elim stone [
      | some _ ↦ pure tt
      | none ↦ do
        t ← asks (λ rec. or_fail not_found (live_ticket rec env.now caller upload))
        if checks_content env.limits t.request
            then (do on_shelf (sh.stage_write_hashed upload content t.request.size); pure tt)
            else (do on_shelf (sh.stage_write upload content t.request.size); pure tt)
    ]

  abbrev pub outcome_of : Ticket → ItemId → Bool → PutOutcome
  outcome_of t id created = record { id = id; created = created; staged = t.request.in_rewrite }

  unfoldable pub finish_upload : UploadId → Ticket → ItemId → Bool → M sh.State PutOutcome
  finish_upload upload t id created = do
    push_after (remove_staging upload)
    update (
        record_outcome upload (record {
          owner = t.owner;
          outcome = outcome_of t id created;
          expires_at = env.now + env.limits.staging_secs;
        }))
    pure (outcome_of t id created)

  abbrev pub is_of_size : ℕ → Option StoredItem → Bool
  is_of_size size none = false
  is_of_size size (some item) = item.size == size

  -- A publish that an earlier commit made and never recorded is recorded now.
  unfoldable pub record_publish : UploadId → Ticket → ℕ → M sh.State (Option PutOutcome)
  unfolding finish_upload
  record_publish upload t generation = do
    bytes ← looks (sh.bytes generation)
    update (book generation bytes)
    outcome ← finish_upload upload t t.request.id true
    pure (some outcome)

  unfoldable pub finish_unrecorded : UploadId → Ticket → ℕ → M sh.State (Option PutOutcome)
  unfolding record_publish
  finish_unrecorded upload t generation = do
    published ← looks (sh.fetch generation t.request.id)
    if is_of_size t.request.size published then record_publish upload t generation else pure none

  -- What was published counts from now on.
  unfoldable pub book_published : UploadId → Ticket → ℕ → Bool → M sh.State PutOutcome
  unfolding finish_upload add_used
  book_published upload t generation made = do
    update (add_used generation t.request.size)
    finish_upload upload t t.request.id true

  -- Publishes, unless the content is there already.
  unfoldable pub publish_or_share : UploadId → Ticket → ℕ → Option ItemId → M sh.State PutOutcome
  unfolding finish_upload book_published
  publish_or_share upload t generation (some id) = finish_upload upload t id false
  publish_or_share upload t generation none = do
    made ← on_shelf (
        sh.publish upload generation t.request.id (record {
          meta = t.request.meta;
          under = t.request.expected_key_id;
          received_at = env.now;
        }))
    book_published upload t generation made

  unfoldable pub commit_staged : UploadId → Ticket → ℕ → Option ℕ → M sh.State PutOutcome
  unfolding checks_content check_plaintext find_in publish_or_share
  commit_staged upload t generation none = refuse content_mismatch
  commit_staged upload t generation (some size) = do
    if size == t.request.size then pure tt else refuse content_mismatch
    if checks_content env.limits t.request then check_plaintext upload t.request else pure tt
    existing ← looks (find_in sh generation (content_key t.request.id))
    publish_or_share upload t generation existing

  -- With the staging place gone there is nothing more to look at.
  unfoldable pub answer_unrecorded :
      UploadId → Ticket → ℕ → Option PutOutcome → M sh.State PutOutcome
  unfolding commit_staged
  answer_unrecorded upload t generation (some outcome) = pure outcome
  answer_unrecorded upload t generation none = commit_staged upload t generation none

  -- What became of the staging place: there, or gone.
  unfoldable pub settle_staged : UploadId → Ticket → ℕ → Option ℕ → M sh.State PutOutcome
  unfolding finish_unrecorded commit_staged answer_unrecorded
  settle_staged upload t generation (some size) = commit_staged upload t generation (some size)
  settle_staged upload t generation none = do
    done ← finish_unrecorded upload t generation
    answer_unrecorded upload t generation done

  unfoldable pub commit_live : Caller → UploadId → M sh.State PutOutcome
  unfolding live_ticket upload_target settle_staged
  commit_live caller upload = do
    t ← asks (λ rec. or_fail not_found (live_ticket rec env.now caller upload))
    generation ← asks (λ rec. upload_target rec caller t.request)
    staged ← looks (sh.stage_size upload)
    settle_staged upload t generation staged

  unfoldable pub answer_outcome : Caller → UploadId → Option Tombstone → M sh.State PutOutcome
  unfolding commit_live
  answer_outcome caller upload (some stone) = pure stone.outcome
  answer_outcome caller upload none = commit_live caller upload

  unfoldable pub commit_upload : Caller → UploadId → M sh.State PutOutcome
  unfolding tombstone answer_outcome
  commit_upload caller upload = do
    stone ← asks (λ rec. ok (tombstone rec env.now caller upload))
    answer_outcome caller upload stone

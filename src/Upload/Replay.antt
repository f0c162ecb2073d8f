-- ===== src/Upload/Replay.antt =====
-- What an upload's first commit leaves for a repeated one, and what keeps it there.
use passalong_server.Upload.WellFormed.{check_plaintext-same}
use passalong_server.Base.{
  ℕ, ◌+◌, ◌<◌, ◌≡◌, refl, subst, Bool, true, false, Option, none, some, arith, ◌∙◌, ◌≢◌, ltb, sym,
}
use passalong_server.Error.{ok, or_fail, not_found}
use passalong_server.Ids.{UploadId, ItemId, ApiKeyId}
use passalong_server.Map
use passalong_server.Map.Laws.{
  get-insert_self, get-insert_ne, get-known, get-retain, get-retain-none, get-remove_none,
}
use passalong_server.Map.Sorted.{IsSorted, get-remove_self}
use passalong_server.Upload.Keeping.{IsClosed}
use passalong_server.Upload.Begin.{is_known}
use passalong_server.Map.Order.{text_ord}
use passalong_server.Record.{Caller, Ticket, PutOutcome, WorkspaceRecord, Tombstone}
use passalong_server.Rules.{Env, Rules, and_then}
use passalong_server.Rules.Post.{Post, and_then-Post, and_then-saw_Post, if-Post, keeps-Post}
use passalong_server.Shelf.{ItemShelf}
use passalong_server.Upload.{live_ticket, tombstone}
use passalong_server.Upload.Commit.{
  finish_upload, record_publish, finish_unrecorded, publish_or_share, commit_staged,
  answer_unrecorded, settle_staged, commit_live, answer_outcome, commit_upload, is_of_size,
  book_published, check_plaintext,
}

-- The outcome stands in the record for its owner, until `until`, in the place of the ticket.
abbrev pub Stands : UploadId → ApiKeyId → ℕ → PutOutcome → WorkspaceRecord → Type 0
Stands upload key until outcome rec =
    (Map.get upload rec.tombstones
      ≡ some (record { owner = key; outcome = outcome; expires_at = until }))
    × (Map.get upload rec.tickets ≡ none)

owner-live_ticket :
    (rec : WorkspaceRecord) (now : ℕ) (caller : Caller) (upload : UploadId) (t : Ticket)
    → live_ticket rec now caller upload ≡ some t
    → t.owner ≡ caller.key
unfolding live_ticket
owner-live_ticket rec now caller upload t h = ground arith

pub Stands-tombstone :
    (rec : WorkspaceRecord) (now until : ℕ) (caller : Caller) (upload : UploadId) (o : PutOutcome)
    → Stands upload caller.key until o rec
    → now < until
    → tombstone rec now caller upload
      ≡ some (record { owner = caller.key; outcome = o; expires_at = until })
unfolding tombstone
Stands-tombstone rec now until caller upload o h b = ground (arith, h.0)

or_fail-eq : {A : Type 0} (x : Option A) {a : A} → or_fail not_found x ≡ ok a → x ≡ some a
or_fail-eq x h = ground arith

module _ (sh : ItemShelf) (env : Env) (upload : UploadId) (t : Ticket) where
  abbrev Q : PutOutcome → Rules sh.State → Type 0
  Q o r = Stands upload t.owner (env.now + env.limits.staging_secs) o r.rec

  abbrev Maybe : Option PutOutcome → Rules sh.State → Type 0
  Maybe none r = Unit {0}
  Maybe (some o) r = Q o r

  abbrev Tidy : Rules sh.State → Type 0
  Tidy r = IsSorted r.rec.tickets

  abbrev AnyTidy : {A : Type 0} → A → Rules sh.State → Type 0
  AnyTidy a r = Tidy r

  finish_upload-Stands :
      (id : ItemId) (created : Bool) (r : Rules sh.State)
      → Tidy r
      → Post Q (finish_upload sh env upload t id created r)
  unfolding finish_upload and_then
  finish_upload-Stands id created r s =
      (get-insert_self upload _ r.rec.tombstones, get-remove_self upload r.rec.tickets s)

  record_publish-Stands :
      (g : ℕ) (r : Rules sh.State) → Tidy r → Post Maybe (record_publish sh env upload t g r)
  unfolding record_publish
  record_publish-Stands g r s = and_then-saw_Post Maybe _ r _ λ n seen.
      and_then-Post AnyTidy Maybe _ _ s λ _ r₁ s₁.
        and_then-Post Q Maybe _ _ (finish_upload-Stands t.request.id true r₁ s₁) λ o r₂ q. q

  finish_unrecorded-Stands :
      (g : ℕ) (r : Rules sh.State) → Tidy r → Post Maybe (finish_unrecorded sh env upload t g r)
  unfolding finish_unrecorded
  finish_unrecorded-Stands g r s = and_then-saw_Post Maybe _ r _ λ item seen.
      if-Post Maybe (is_of_size sh env t.request.size item) _ _ r (record_publish-Stands g r s) tt

  publish_or_share-Stands :
      (g : ℕ) (existing : Option ItemId) (r : Rules sh.State)
      → Tidy r
      → Post Q (publish_or_share sh env upload t g existing r)
  unfolding publish_or_share book_published
  publish_or_share-Stands g (some id) r s = finish_upload-Stands id false r s
  publish_or_share-Stands g none r s = and_then-Post AnyTidy Q _ _ (keeps-Post Tidy _ s) λ _ r₁ s₁.
      and_then-Post AnyTidy Q _ _ s₁ λ _ r₂ s₂. finish_upload-Stands t.request.id true r₂ s₂

  checked : (r : Rules sh.State) → Tidy r → Post AnyTidy (check_plaintext sh env upload t.request r)
  checked r s =
      keeps-Post Tidy _ (subst Tidy (sym (check_plaintext-same sh env upload t.request r)) s)

  commit_staged-Stands :
      (g : ℕ) (size : Option ℕ) (r : Rules sh.State)
      → Tidy r
      → Post Q (commit_staged sh env upload t g size r)
  unfolding commit_staged
  commit_staged-Stands g none r s = tt
  commit_staged-Stands g (some size) r s =
      and_then-Post AnyTidy Q _ _ (ground (arith, s)) λ _ r₁ s₁.
        and_then-Post AnyTidy Q _ _ (ground (arith, s₁, checked r₁ s₁)) λ _ r₂ s₂.
          and_then-saw_Post Q _ r₂ _ λ existing seen. publish_or_share-Stands g existing r₂ s₂

  answer_unrecorded-Stands :
      (g : ℕ) (o : Option PutOutcome) (r : Rules sh.State)
      → Maybe o r
      → Post Q (answer_unrecorded sh env upload t g o r)
  unfolding answer_unrecorded commit_staged
  answer_unrecorded-Stands g (some o) r q = q
  answer_unrecorded-Stands g none r q = tt

  settle_staged-Stands :
      (g : ℕ) (size : Option ℕ) (r : Rules sh.State)
      → Tidy r
      → Post Q (settle_staged sh env upload t g size r)
  unfolding settle_staged
  settle_staged-Stands g (some size) r s = commit_staged-Stands g (some size) r s
  settle_staged-Stands g none r s =
      and_then-Post Maybe Q _ _ (finish_unrecorded-Stands g r s)
        λ o r₁ q. answer_unrecorded-Stands g o r₁ q

module _ (sh : ItemShelf) (env : Env) (caller : Caller) (upload : UploadId) where
  abbrev Stood : PutOutcome → Rules sh.State → Type 0
  Stood o r = Stands upload caller.key (env.now + env.limits.staging_secs) o r.rec

  commit_live-Stands :
      (r : Rules sh.State)
      → IsSorted r.rec.tickets
      → Post Stood (commit_live sh env caller upload r)
  unfolding commit_live
  commit_live-Stands r s = and_then-saw_Post Stood _ r _ λ t live.
      and_then-saw_Post Stood _ r _ λ g _. and_then-saw_Post Stood _ r _ λ size _.
        subst
          (λ key.
            Post (λ o q. Stands upload key (env.now + env.limits.staging_secs) o q.rec)
              (settle_staged sh env upload t g size r))
          (owner-live_ticket r.rec env.now caller upload t (or_fail-eq _ live))
          (settle_staged-Stands sh env upload t g size r s)

  pub first_commit-Stands :
      (r : Rules sh.State)
      → IsSorted r.rec.tickets
      → tombstone r.rec env.now caller upload ≡ none
      → Post Stood (commit_upload sh env caller upload r)
  unfolding commit_upload answer_outcome and_then
  first_commit-Stands r s h = rw h (commit_live-Stands r s)

  -- A commit of an upload whose outcome stands.
  pub commit_upload-Stands :
      (r : Rules sh.State) (o : PutOutcome) (until : ℕ)
      → Stands upload caller.key until o r.rec
      → env.now < until
      → commit_upload sh env caller upload r ≡ (ok o, r)
  unfolding commit_upload answer_outcome and_then
  commit_upload-Stands r o until stands soon =
      rw (Stands-tombstone r.rec env.now until caller upload o stands soon) refl

apart :
    {v : Tombstone} (upload other : UploadId) (rec : WorkspaceRecord)
    → Map.get upload rec.tombstones ≡ some v
    → is_known rec other ≡ false
    → upload ≢ other
apart {v} upload other rec h unknown e = ground (
  arith,
  get-known upload rec.tombstones v h,
  subst (λ u. is_known rec u ≡ false) (sym e) unknown,
)

-- Every operation before `until` keeps an outcome that stands.
pub Stands-IsClosed :
    (upload : UploadId) (key : ApiKeyId) (until : ℕ) (o : PutOutcome) (now : ℕ)
    → now < until
    → IsClosed now (Stands upload key until o)
Stands-IsClosed upload key until o now soon = record {
  books = λ rec used p. p;
  states = λ rec state p. p;
  moves = λ rec generation next plain p. p;
  ends = λ rec k p. p;
  drops = λ rec u p. (p.0, get-remove_none upload u rec.tickets p.1);
  adds = λ rec u t unknown p.
      (p.0, get-insert_ne u upload t rec.tickets (apart upload u rec p.0 unknown) ∙ p.1);
  settles = λ rec u t stone held p. (
    get-insert_ne u upload stone rec.tombstones (λ e. ground (arith, held, p.1, e)) ∙ p.0,
    get-remove_none upload u rec.tickets p.1,
  );
  expires = λ rec p. (
    get-retain (λ s. ltb now s.expires_at) upload _ rec.tombstones p.0 (ground (arith, soon)),
    get-retain-none _ upload rec.tickets p.1,
  );
}

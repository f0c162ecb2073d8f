-- ===== src/Upload/Begin.antt =====
-- `beginUpload` and `probeWrite` of crates/passalong-server-core/src/upload.rs.
use passalong_server.Base.{
  ℕ, zero, suc, ◌+◌, ◌-◌, Bool, true, false, ◌&&◌, ◌||◌, List, [], ◌∷◌, Option, none, some, ltb,
  if◌then◌else◌, length, find, filter,
}
use passalong_server.Error.{
  Result, ok, err, spins, rewrite_in_progress, item_too_large, quota_exceeded,
}
use passalong_server.Ids.{Bytes, ItemId, UploadId, generate, content_key}
use passalong_server.Map
use passalong_server.Map.Order.{text_ord}
use passalong_server.Record.{
  Caller, EncryptionStatus, settled, rewriting, UploadRequest, Begun, ticket, already_stored,
  Ticket, WorkspaceRecord, remove_staging,
}
use passalong_server.Rules.{
  M, Env, ◌>>=◌, ◌>>◌, pure, refuse, lift, asks, looks, on_shelf, update, push_after,
}
use passalong_server.Shelf.{ItemShelf}
use passalong_server.Upload.{
  saturating_add, reserved_by, staged_bytes, upload_target, is_same_request,
}
use passalong_server.Views.{must_write, booked, used_bytes, find_in}

-- The bytes that the quota counts before a new upload. The next generation has the quota as an
-- allowance of its own.
unfoldable pub held_bytes : WorkspaceRecord → ℕ → ℕ → Bool → ℕ
unfolding used_bytes staged_bytes reserved_by
held_bytes rec generation now true =
    saturating_add (booked rec generation) (reserved_by rec now true)
held_bytes rec generation now false =
    saturating_add (used_bytes rec - staged_bytes rec) (reserved_by rec now false)

abbrev pub is_known : WorkspaceRecord → UploadId → Bool
is_known rec candidate =
    Map.contains_key candidate rec.tickets || Map.contains_key candidate rec.tombstones

-- The loop over candidate ids: the first that the record does not know, and the number of fills
-- after it. `none` where the fuel runs out first.
unfoldable pub draw_id : ℕ → (ℕ → Bytes) → WorkspaceRecord → ℕ → Option (UploadId × ℕ)
draw_id zero draws rec n = none
draw_id (suc fuel) draws rec n =
    let again = draw_id fuel draws rec (suc n) in
    if is_known rec (generate (draws n)) then again else some (generate (draws n), suc n)

-- One round more than there are ids that it could meet.
abbrev pub draw_fuel : WorkspaceRecord → ℕ
draw_fuel rec = suc (length rec.tickets + length rec.tombstones)

abbrev pub drop_ticket : UploadId → WorkspaceRecord → WorkspaceRecord
drop_ticket upload rec = record rec {
  uploads = record rec.uploads { tickets = Map.remove upload rec.tickets };
}

abbrev pub add_ticket : UploadId → Ticket → WorkspaceRecord → WorkspaceRecord
add_ticket upload t rec = record rec {
  uploads = record rec.uploads { tickets = Map.insert upload t rec.tickets };
}

-- The loops that give tickets up: each goes, and its staging place after it.
unfoldable pub drop_tickets : {S : Type 0} → List UploadId → M S (Unit {0})
drop_tickets [] = pure tt
drop_tickets (upload ∷ rest) = do
  update (drop_ticket upload)
  push_after (remove_staging upload)
  drop_tickets rest

module _ (sh : ItemShelf) (env : Env) where
  abbrev pub drawn_as : Option (UploadId × ℕ) → M sh.State UploadId
  drawn_as none r = (spins, r)
  drawn_as (some (id, n)) r = (ok id, record r { drawn = n })

  unfoldable pub fresh_upload_id : M sh.State UploadId
  unfolding draw_id
  fresh_upload_id r = drawn_as (draw_id (draw_fuel r.rec) env.draws r.rec r.drawn) r

  -- `new_upload_id`, with no look at what is known.
  unfoldable pub new_upload_id : M sh.State UploadId
  new_upload_id r = (ok (generate (env.draws r.drawn)), record r { drawn = suc r.drawn })

  abbrev is_too_large : Option ℕ → ℕ → Bool
  is_too_large none size = false
  is_too_large (some most) size = ltb most size

  -- Somebody stored this content first: the caller's own tickets for it are given up.
  unfoldable pub answer_stored : Caller → UploadRequest → ItemId → M sh.State Begun
  unfolding drop_tickets
  answer_stored caller request id = do
    given_up ←
        asks
          (λ rec. ok (Map.keys (filter (λ e. is_same_request caller.key request e.1) rec.tickets)))
    drop_tickets given_up
    pure (already_stored (record { id = id; created = false; staged = request.in_rewrite }))

  -- A live ticket for the same request.
  abbrev pub is_replay : Caller → UploadRequest → UploadId × Ticket → Bool
  is_replay caller request (_, t) = ltb env.now t.expires_at && is_same_request caller.key request t

  unfoldable pub answer_live : UploadId → Ticket → M sh.State Begun
  answer_live upload t = do
    on_shelf (sh.stage_create upload)
    pure (ticket (record { upload_id = upload; expires_at = t.expires_at }))

  -- A new ticket, under an id of its own.
  unfoldable pub ticket_given : Caller → UploadRequest → M sh.State Begun
  unfolding fresh_upload_id
  ticket_given caller request = do
    upload ← fresh_upload_id
    on_shelf (sh.stage_create upload)
    update (
        add_ticket upload (record {
          owner = caller.key;
          request = request;
          expires_at = env.now + env.limits.staging_secs;
        }))
    pure (ticket (record { upload_id = upload; expires_at = env.now + env.limits.staging_secs }))

  unfoldable pub open_upload : Caller → UploadRequest → ℕ → M sh.State Begun
  unfolding held_bytes ticket_given
  open_upload caller request generation = do
    held ← asks (λ rec. ok (held_bytes rec generation env.now request.in_rewrite))
    if ltb env.limits.quota_bytes (saturating_add held request.size)
        then refuse quota_exceeded
        else ticket_given caller request

  unfoldable pub begin_unstored : Caller → UploadRequest → ℕ → M sh.State Begun
  unfolding answer_live open_upload
  begin_unstored caller request generation = do
    live ← asks (λ rec. ok (find (is_replay caller request) rec.tickets))
    elim live [
      | some (upload, t) ↦ answer_live upload t
      | none ↦ open_upload caller request generation
    ]

  unfoldable pub check_size : UploadRequest → M sh.State (Unit {0})
  check_size request =
      if is_too_large env.limits.max_item_bytes request.size then refuse item_too_large else pure tt

  -- Whether the content is stored already decides.
  unfoldable pub begin_found : Caller → UploadRequest → ℕ → Option ItemId → M sh.State Begun
  unfolding answer_stored begin_unstored
  begin_found caller request generation (some id) = answer_stored caller request id
  begin_found caller request generation none = begin_unstored caller request generation

  unfoldable pub begin_upload : Caller → UploadRequest → M sh.State Begun
  unfolding must_write upload_target check_size find_in begin_found
  begin_upload caller request = do
    lift (must_write caller)
    generation ← asks (λ rec. upload_target rec caller request)
    check_size request
    existing ← looks (find_in sh generation (content_key request.id))
    begin_found caller request generation existing

  abbrev settled_or_refused : EncryptionStatus → Result (Unit {0})
  settled_or_refused (settled seal) = ok tt
  settled_or_refused (rewriting session) = err rewrite_in_progress

  unfoldable pub probe_write : Caller → M sh.State (Unit {0})
  unfolding must_write new_upload_id
  probe_write caller = do
    lift (must_write caller)
    asks (λ rec. settled_or_refused rec.state)
    probe ← new_upload_id
    on_shelf (sh.stage_create probe)
    on_shelf (sh.stage_remove probe)

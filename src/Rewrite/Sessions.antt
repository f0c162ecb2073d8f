-- ===== src/Rewrite/Sessions.antt =====
-- Who may work on an open rewrite, and what its end leaves.
use passalong_server.Upload.Commit.{commit_upload, answer_outcome, commit_live}
use passalong_server.Upload.Begin.{begin_upload}
use passalong_server.Base.{
  refl, ◌+◌, ◌≡◌, ◌≢◌, true, arith, List, length, not, none, holds, some, ◌&&◌, ltb, false,
  if◌then◌else◌, Bool-cases, inl, inr,
}
use passalong_server.Error.{err, lease_held, ok}
use passalong_server.Ids.{KeyId, ItemId, UploadId, Text-discrete}
use passalong_server.Map.Order.{nat_ord, text_ord}
use passalong_server.Record.{Caller, read_write, Session, UploadRequest, rewriting, Ticket}
use passalong_server.Rewrite.{
  heartbeat_rewrite, take_over_rewrite, commit_rewrite, abort_rewrite, renew_lease, session_view,
}
use passalong_server.Rules.{Env, Rules, and_then}
use passalong_server.Shelf.{ItemShelf}
use passalong_server.Upload.{upload_target, tombstone, live_ticket}
use passalong_server.Views.{must_write, held_session, rewrite_target, session_view}

module _ (sh : ItemShelf) (env : Env) (caller : Caller) (r : Rules sh.State) (s : Session) where
  target_refused :
      (request : UploadRequest)
      → r.rec.state ≡ rewriting s
      → s.holder ≢ caller.key
      → request.in_rewrite ≡ true
      → upload_target r.rec caller request ≡ err lease_held
  unfolding upload_target held_session rewrite_target
  target_refused request opened other in_it = ground arith

  -- While a rewrite is open, a writer that does not hold its lease is told `lease_held` by a
  -- heartbeat, by a commit and an abort, whatever key they name, by the begin of an upload into it,
  -- and by the commit of an upload into it that the caller has a live ticket for and no outcome of;
  -- and none of these changes anything. (The content of such an upload may still be sent.)
  pub others_are_refused :
      (key : KeyId) (request : UploadRequest) (upload : UploadId) (t : Ticket)
      → r.rec.state ≡ rewriting s
      → caller.role ≡ read_write
      → s.holder ≢ caller.key
      → request.in_rewrite ≡ true
      → tombstone r.rec env.now caller upload ≡ none
      → live_ticket r.rec env.now caller upload ≡ some t
      → t.request.in_rewrite ≡ true
      → (heartbeat_rewrite sh env caller r ≡ (err lease_held, r))
        × (commit_rewrite sh caller key r ≡ (err lease_held, r))
        × (abort_rewrite sh caller key r ≡ (err lease_held, r))
        × (begin_upload sh env caller request r ≡ (err lease_held, r))
        × (commit_upload sh env caller upload r ≡ (err lease_held, r))
  unfolding heartbeat_rewrite commit_rewrite abort_rewrite held_session begin_upload commit_upload
      answer_outcome commit_live must_write and_then
  others_are_refused key request upload t opened w other in_it none_yet live into =
      let refused = target_refused request opened other in_it in
      let refused_again = target_refused t.request opened other into in
      (
        ground arith,
        ground arith,
        ground arith,
        rw (w, refused) refl,
        rw (none_yet, live, refused_again) refl,
      )

  -- A writer that does not hold the lease takes the rewrite over exactly from the moment that the
  -- lease ends: before it, the answer is `lease_held` and nothing changes; from then on, where the
  -- shelf can list the staged items and the items, the take-over succeeds. What it answers names the
  -- caller as the holder and the lease renewed, with the kind, the new key and the items staged so
  -- far, and the record is the old one with that holder and lease.
  pub take_over-waits :
      (staged source : List ItemId)
      → r.rec.state ≡ rewriting s
      → caller.role ≡ read_write
      → s.holder ≢ caller.key
      → sh.ids s.staged_generation r.shelf ≡ ok staged
      → sh.ids r.rec.generation r.shelf ≡ ok source
      → take_over_rewrite sh env caller r ≡ (
          if ltb env.now s.lease_expires_at then (err lease_held, r) else (
            ok (record {
              kind = s.kind;
              holder = caller.key;
              lease_expires_at = env.now + env.limits.lease_secs;
              new_key_id = s.next.key_id;
              new_header = s.next.header;
              staged_ids = staged;
              source_items = length source;
            }),
            record r {
              rec = record r.rec {
                state = rewriting (record s {
                  holder = caller.key;
                  lease_expires_at = env.now + env.limits.lease_secs;
                });
              };
            },
          ))
  unfolding take_over_rewrite must_write renew_lease session_view and_then
  take_over-waits staged source opened w other listed read =
      elim (Bool-cases (ltb env.now s.lease_expires_at)) [
        | inl early ↦ rw early (ground (arith, early, w, opened, other))
        | inr late ↦ rw (late, w, opened, ended late, listed, read) refl
      ]
    where
      ended :
          ltb env.now s.lease_expires_at ≡ false
          → not (holds (Text-discrete s.holder caller.key)) && ltb env.now s.lease_expires_at
            ≡ false
      ended late = rw late (ground arith)

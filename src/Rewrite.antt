-- ===== src/Rewrite.antt =====
-- crates/passalong-server-core/src/rewrite.rs: the rewrite session. Its lease has a holder and an
-- end; the end of the lease takes nothing from the holder until somebody takes over.
pub mod WellFormed
pub mod Lease
pub mod Sessions
pub mod Ends
pub mod Cleanups
use passalong_server.Base.{
  ℕ, ◌+◌, Bool, false, not, ◌&&◌, List, Option, none, some, ite, ltb, ◌==◌, if◌then◌else◌, length,
  holds, bytes_of,
}
use passalong_server.Error.{
  Result, ok, err, spins, or_fail, key_id_mismatch, rewrite_in_progress, lease_held,
  rewrite_incomplete, rewrite_ended, not_found, invalid_request,
}
use passalong_server.Ids.{ItemId, KeyId, ApiKeyId, Text-discrete}
use passalong_server.Map
use passalong_server.Map.Order.{nat_ord, text_ord}
use passalong_server.Record.{
  Caller, Seal, RewriteKind, migrate, rotate, Session, RewriteRequest, EncryptionStatus, settled,
  rewriting, WorkspaceRecord, drop_generation, SessionView, EncryptionView, KeyId-discrete,
  RewriteKind-discrete,
}
use passalong_server.Rules.{
  M, Env, ◌>>=◌, ◌>>◌, pure, refuse, lift, asks, looks, update, push_after,
}
use passalong_server.Shelf.{ItemShelf}
use passalong_server.Upload.Janitor.{drop_rewrite_uploads}
use passalong_server.Views.{must_write, key_of, held_session, session_view}
use passalong_server.Workspace.{report}

abbrev pub leased_in : EncryptionStatus → ApiKeyId → ℕ → EncryptionStatus
leased_in (settled seal) holder until = settled seal
leased_in (rewriting session) holder until =
    rewriting (record session { holder = holder; lease_expires_at = until })

-- `renew_lease`.
unfoldable pub renew_lease : Env → ApiKeyId → WorkspaceRecord → WorkspaceRecord
renew_lease env holder rec = record rec {
  state = leased_in rec.state holder (env.now + env.limits.lease_secs);
}

-- The kind fits the seal that the workspace has.
unfoldable pub fits : RewriteKind → Option Seal → Result (Unit {0})
fits migrate none = ok tt
fits rotate (some seal) = ok tt
fits migrate (some seal) =
    err (invalid_request (bytes_of "the workspace is encrypted already; rotate its key instead"))
fits rotate none =
    err (invalid_request (bytes_of "the workspace is not encrypted; migrate it instead"))

abbrev is_replay_of : RewriteRequest → Caller → Session → Bool
is_replay_of request caller session =
    holds (Text-discrete session.holder caller.key)
    && (holds (RewriteKind-discrete session.kind request.kind)
        && holds (Text-discrete session.next.key_id request.new_key_id))

-- `beginRewrite`'s refusals in a settled workspace, in their order.
unfoldable pub admits : WorkspaceRecord → RewriteRequest → Option Seal → Result (Unit {0})
unfolding fits
admits rec request prior = elim (fits request.kind prior) [
  | err e ↦ err e
  | spins ↦ spins
  | ok _ ↦
      if Map.contains_key request.new_key_id rec.ended_rewrites
      then err rewrite_ended
      else ite (KeyId-discrete (key_of prior) request.expected_key_id)
          (ite (KeyId-discrete (key_of prior) (some request.new_key_id))
            (err (invalid_request (bytes_of "the new key is the current one"))) (ok tt))
          (err key_id_mismatch)
]

abbrev pub open_session :
    Env → Caller → RewriteRequest → Option Seal → WorkspaceRecord → WorkspaceRecord
open_session env caller request prior rec = record rec {
  next_generation = rec.next_generation + 1;
  state = rewriting (record {
    kind = request.kind;
    prior = prior;
    next = record { key_id = request.new_key_id; header = request.new_header };
    holder = caller.key;
    lease_expires_at = env.now + env.limits.lease_secs;
    staged_generation = rec.next_generation;
  });
}

-- What the end of a session leaves: the seal before it, or the one it made.
abbrev pub restored : Session → WorkspaceRecord → WorkspaceRecord
restored session rec = record rec {
  ended_rewrites = Map.insert session.next.key_id tt rec.ended_rewrites;
  state = settled session.prior;
  used = Map.remove session.staged_generation rec.used;
}

abbrev pub switched : Session → WorkspaceRecord → WorkspaceRecord
switched session rec = record rec {
  generation = session.staged_generation;
  state = settled (some session.next);
  used = Map.remove rec.generation rec.used;
}

abbrev may_take_over : EncryptionStatus → ApiKeyId → ℕ → Result (Unit {0})
may_take_over (settled seal) key now = err not_found
may_take_over (rewriting session) key now =
    if not (holds (Text-discrete session.holder key)) && ltb now session.lease_expires_at
    then err lease_held
    else ok tt

abbrev pub operator_session : EncryptionStatus → Bool → ℕ → Result Session
operator_session (settled seal) force now = err not_found
operator_session (rewriting session) force now =
    if not force && ltb now session.lease_expires_at then err lease_held else ok session

abbrev pub is_under : Option Seal → KeyId → Bool
is_under none key_id = false
is_under (some seal) key_id = holds (Text-discrete seal.key_id key_id)

module _ (sh : ItemShelf) where
  -- `self.session_view()?.ok_or(NotFound)`.
  abbrev pub report_session : M sh.State SessionView
  report_session = do view ← λ r. (session_view sh r.rec r.shelf, r); lift (or_fail not_found view)

  unfoldable pub begin_settled :
      Env → Caller → RewriteRequest → Option Seal → M sh.State SessionView
  unfolding admits
  begin_settled env caller request prior = do
    asks (λ rec. admits rec request prior)
    update (open_session env caller request prior)
    report_session

  unfoldable pub begin_again : Env → Caller → RewriteRequest → Session → M sh.State SessionView
  unfolding renew_lease
  begin_again env caller request session =
      if is_replay_of request caller session
      then (do update (renew_lease env caller.key); report_session)
      else refuse rewrite_in_progress

  abbrev pub begin_in : Env → Caller → RewriteRequest → EncryptionStatus → M sh.State SessionView
  begin_in env caller request (rewriting session) = begin_again env caller request session
  begin_in env caller request (settled prior) = begin_settled env caller request prior

  unfoldable pub begin_rewrite : Env → Caller → RewriteRequest → M sh.State SessionView
  unfolding must_write begin_again begin_settled
  begin_rewrite env caller request = do
    lift (must_write caller)
    state ← asks (λ rec. ok rec.state)
    begin_in env caller request state

  unfoldable pub heartbeat_rewrite : Env → Caller → M sh.State SessionView
  unfolding must_write held_session renew_lease
  heartbeat_rewrite env caller = do
    lift (must_write caller)
    asks (λ rec. held_session rec caller)
    update (renew_lease env caller.key)
    report_session

  unfoldable pub take_over_rewrite : Env → Caller → M sh.State SessionView
  unfolding must_write renew_lease
  take_over_rewrite env caller = do
    lift (must_write caller)
    asks (λ rec. may_take_over rec.state caller.key env.now)
    update (renew_lease env caller.key)
    report_session

  abbrev complete : List ItemId → List ItemId → M sh.State (Unit {0})
  complete staged source =
      if length staged == length source
      then pure tt
      else refuse (rewrite_incomplete (length staged) (length source))

  -- The old generation goes once the record is stored.
  unfoldable pub switch_over : Session → M sh.State (Unit {0})
  switch_over session = do
    old ← asks (λ rec. ok rec.generation)
    update (switched session)
    push_after (drop_generation old)

  unfoldable pub commit_session : Session → M sh.State EncryptionView
  unfolding switch_over drop_rewrite_uploads
  commit_session session = do
    staged ← looks (sh.ids session.staged_generation)
    source ← λ r. looks (sh.ids r.rec.generation) r
    complete staged source
    switch_over session
    drop_rewrite_uploads
    report sh

  abbrev pub named : KeyId → Session → Result Session
  named new_key_id session =
      ite (Text-discrete session.next.key_id new_key_id) (ok session) (err key_id_mismatch)

  unfoldable pub commit_open : Caller → KeyId → M sh.State EncryptionView
  unfolding held_session commit_session
  commit_open caller new_key_id = do
    held ← asks (λ rec. held_session rec caller)
    session ← lift (named new_key_id held)
    commit_session session

  abbrev pub commit_in : Caller → KeyId → EncryptionStatus → M sh.State EncryptionView
  commit_in caller new_key_id (settled seal) =
      if is_under seal new_key_id then report sh else refuse not_found
  commit_in caller new_key_id (rewriting session) = commit_open caller new_key_id

  unfoldable pub commit_rewrite : Caller → KeyId → M sh.State EncryptionView
  unfolding must_write commit_open
  commit_rewrite caller new_key_id = do
    lift (must_write caller)
    state ← asks (λ rec. ok rec.state)
    commit_in caller new_key_id state

  unfoldable pub put_back : Session → M sh.State (Unit {0})
  put_back session = do
    update (restored session)
    push_after (drop_generation session.staged_generation)

  -- `end_aborted`.
  unfoldable pub end_aborted : Session → M sh.State EncryptionView
  unfolding put_back drop_rewrite_uploads
  end_aborted session = do put_back session; drop_rewrite_uploads; report sh

  unfoldable pub abort_open : Caller → KeyId → M sh.State EncryptionView
  unfolding held_session end_aborted
  abort_open caller new_key_id = do
    held ← asks (λ rec. held_session rec caller)
    session ← lift (named new_key_id held)
    end_aborted session

  abbrev pub abort_in : Caller → KeyId → EncryptionStatus → M sh.State EncryptionView
  abort_in caller new_key_id (settled seal) = report sh
  abort_in caller new_key_id (rewriting session) = abort_open caller new_key_id

  unfoldable pub abort_rewrite : Caller → KeyId → M sh.State EncryptionView
  unfolding must_write abort_open
  abort_rewrite caller new_key_id = do
    lift (must_write caller)
    state ← asks (λ rec. ok rec.state)
    abort_in caller new_key_id state

  unfoldable pub operator_abort_rewrite : Env → Bool → M sh.State EncryptionView
  unfolding end_aborted
  operator_abort_rewrite env force = do
    session ← asks (λ rec. operator_session rec.state force env.now)
    end_aborted session

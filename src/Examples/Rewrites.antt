-- ===== src/Examples/Rewrites.antt =====
-- Rewrites at concrete inputs.
use passalong_server.Api.{Request, changes, cleans, run, serve, rule_of}
use passalong_server.Api.Endings.{begin_rewrite-ends, begin_rewrite-GivenUp}
use passalong_server.Base.{ℕ_discrete, ◌≡◌, refl, true, none, some, arith, List, [], ◌∷◌}
use passalong_server.Engine.{Engine, write, transact, perform, perform_all}
use passalong_server.Engine.Transactions.{Unmoved}
use passalong_server.Error.{Result, ok, err, lease_held, rewrite_ended}
use passalong_server.Examples.{
  shelf, writer, other_writer, env_at, request, open_workspace, session, new_key, old_key, started,
  staged_shelves, stored_item, running, sealed_workspace, workspace_in, old_seal,
}
use passalong_server.Ids.{Text-discrete, UploadId}
use passalong_server.Map
use passalong_server.Map.Order.{nat_ord, text_ord}
use passalong_server.Record.{
  UploadRequest, RewriteRequest, EncryptionView, SessionView, Ticket, WorkspaceRecord, rotate,
  rewriting, settled, sealed, KeyId-discrete,
}
use passalong_server.Rewrite.{
  fits, admits, begin_rewrite, begin_settled, heartbeat_rewrite, take_over_rewrite, commit_rewrite,
  abort_rewrite, abort_open, end_aborted, put_back, operator_abort_rewrite, leased_in,
}
use passalong_server.Rewrite.Ends.{
  Ending, by_holder, by_operator, ends, Switched, commit_rewrite-Switched,
}
use passalong_server.Rewrite.Sessions.{others_are_refused, take_over-waits}
use passalong_server.Rules.{Env, Rules, and_then}
use passalong_server.Upload.{tombstone, live_ticket}
use passalong_server.Upload.Begin.{begin_upload, drop_tickets}
use passalong_server.Upload.Commit.{commit_upload}
use passalong_server.Upload.Janitor.{
  drop_rewrite_uploads, clean_staging, sweep_staging, sweep_shelf, sweep_generations,
}
use passalong_server.Views.{encryption, session_view, live_generations, held_session}

abbrev into_it : UploadRequest
into_it = record request { expected_key_id = some new_key; in_rewrite = true }

abbrev opened : Rules shelf.State
opened = started open_workspace

-- A ticket of the other writer into the rewrite, from the time when it held the lease.
abbrev their_upload : UploadId
their_upload = 8 ∷ []

abbrev their_ticket : Ticket
their_ticket = record { owner = other_writer.key; request = into_it; expires_at = 50 }

abbrev with_their_ticket : Rules shelf.State
with_their_ticket = record opened {
  rec = record open_workspace {
    uploads = record { tickets = (their_upload, their_ticket) ∷ []; tombstones = [] };
  };
}

others_are_refused_example :
    (heartbeat_rewrite shelf (env_at 40) other_writer with_their_ticket
      ≡ (err lease_held, with_their_ticket))
    × (commit_rewrite shelf other_writer new_key with_their_ticket
        ≡ (err lease_held, with_their_ticket))
    × (abort_rewrite shelf other_writer new_key with_their_ticket
        ≡ (err lease_held, with_their_ticket))
    × (begin_upload shelf (env_at 40) other_writer into_it with_their_ticket
        ≡ (err lease_held, with_their_ticket))
    × (commit_upload shelf (env_at 40) other_writer their_upload with_their_ticket
        ≡ (err lease_held, with_their_ticket))
unfolding tombstone live_ticket Map.get Text-discrete ℕ_discrete
others_are_refused_example =
    others_are_refused shelf (env_at 40) other_writer with_their_ticket session new_key into_it
      their_upload their_ticket refl refl (ground arith) refl refl refl refl

take_over-waits_example : take_over_rewrite shelf (env_at 40) other_writer opened ≡ (
  ok (record {
    kind = rotate;
    holder = other_writer.key;
    lease_expires_at = 70;
    new_key_id = new_key;
    new_header = [];
    staged_ids = [];
    source_items = 1;
  }),
  record opened {
    rec = record open_workspace {
      state = rewriting (record session { holder = other_writer.key; lease_expires_at = 70 });
    };
  },
)
unfolding Map.get
take_over-waits_example =
    take_over-waits shelf (env_at 40) other_writer opened session [] (stored_item ∷ []) refl refl
      (ground arith) refl refl

abbrev back : EncryptionView
back = record { state = sealed; key_id = some old_key; header = some []; rewrite = none }

abbrev again : RewriteRequest
again = record {
  kind = rotate;
  expected_key_id = some old_key;
  new_key_id = new_key;
  new_header = [];
}

-- The operator ends it, and the server is asked to clean up.
abbrev by_force : Ending
by_force = by_operator true

abbrev cleaned : List (Env × Request)
cleaned = (env_at 15, changes cleans) ∷ []

abbrev given_up : Engine shelf.State
given_up = (write shelf (ends shelf (env_at 10) by_force) (running open_workspace)).1

abbrev ended_workspace : WorkspaceRecord
ended_workspace = record (workspace_in (settled (some old_seal)) 2) {
  ended_rewrites = (new_key, tt) ∷ [];
}

gives_up : (write shelf (ends shelf (env_at 10) by_force) (running open_workspace)).0 ≡ ok back
unfolding write transact operator_abort_rewrite end_aborted put_back drop_rewrite_uploads
    drop_tickets and_then Text-discrete ℕ_discrete encryption Map.get
gives_up = refl

later_on :
    Map.get (run shelf given_up cleaned).workspace (run shelf given_up cleaned).ledger
    ≡ some ended_workspace
unfolding write transact operator_abort_rewrite end_aborted put_back drop_rewrite_uploads
    drop_tickets and_then Text-discrete ℕ_discrete encryption Map.get Map.insert Map.remove run
    serve rule_of clean_staging sweep_staging sweep_shelf sweep_generations live_generations
    Map.retain Map.contains_key perform_all perform
later_on = refl

begin_rewrite-ends_example :
    let then = run shelf given_up cleaned in
    Unmoved shelf then
      (err rewrite_ended)
      (write shelf (begin_rewrite shelf (env_at 20) other_writer again) then)
unfolding fits Map.get
begin_rewrite-ends_example =
    begin_rewrite-ends shelf (env_at 10) (env_at 20) other_writer (running open_workspace)
      open_workspace ended_workspace session by_force back cleaned again (some old_seal) refl refl
      gives_up later_on refl refl refl refl

abbrev first_begun : Result SessionView × Rules shelf.State
first_begun = begin_rewrite shelf (env_at 10) writer again (started sealed_workspace)

abbrev first_view : SessionView
first_view = record {
  kind = rotate;
  holder = writer.key;
  lease_expires_at = 40;
  new_key_id = new_key;
  new_header = [];
  staged_ids = [];
  source_items = 1;
}

begins : first_begun.0 ≡ ok first_view
unfolding begin_rewrite begin_settled admits fits and_then session_view Text-discrete ℕ_discrete
    KeyId-discrete Map.contains_key Map.get
begins = refl

-- The other writer takes the lease over and gives up.
abbrev taken_over : Rules shelf.State
taken_over = record first_begun.1 {
  rec = record first_begun.1.rec { state = leased_in first_begun.1.rec.state other_writer.key 70 };
}

gives_back : (abort_rewrite shelf other_writer new_key taken_over).0 ≡ ok back
unfolding begin_rewrite begin_settled admits fits and_then session_view Text-discrete ℕ_discrete
    KeyId-discrete Map.contains_key abort_rewrite abort_open end_aborted put_back
    drop_rewrite_uploads drop_tickets encryption Map.get held_session
gives_back = refl

begin_rewrite-GivenUp_example :
    let opening = first_begun.1.rec in
    let left = (abort_rewrite shelf other_writer new_key taken_over).1.rec in
    (opening.generation ≡ 0)
    × (opening.plain ≡ none)
    × (left.state ≡ settled (some old_seal))
    × (left.generation ≡ taken_over.rec.generation)
    × (left.plain ≡ taken_over.rec.plain)
    × (Map.contains_key new_key left.ended_rewrites ≡ true)
begin_rewrite-GivenUp_example =
    begin_rewrite-GivenUp shelf (env_at 10) (env_at 50) writer again (some old_seal)
      (started sealed_workspace) taken_over first_view other_writer.key 70
      (by_holder other_writer new_key) back refl begins refl gives_back

-- Every item is staged.
abbrev staged : Rules shelf.State
staged = record opened { shelf = staged_shelves }

abbrev forward : EncryptionView
forward = record { state = sealed; key_id = some new_key; header = some []; rewrite = none }

commits : (commit_rewrite shelf writer new_key staged).0 ≡ ok forward
unfolding commit_rewrite and_then Text-discrete ℕ_discrete encryption Map.get
commits = refl

commit_rewrite-Switched_example :
    Switched session open_workspace (commit_rewrite shelf writer new_key staged).1.rec
commit_rewrite-Switched_example =
    commit_rewrite-Switched shelf session writer new_key staged forward refl commits

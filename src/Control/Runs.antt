-- ===== src/Control/Runs.antt =====
-- What operators and requests do to the control database in the course of time.
use passalong_server.Base.{◌∷◌, []}
use passalong_server.Control.Authenticate.{authenticate}
use passalong_server.Control.Keys.{create_key, extend_key, revoke_key, delete_key, prune_keys}
use passalong_server.Control.Workspaces.{create_workspace, delete_workspace}
use passalong_server.Control.{
  spins, Env, Option, Database, List, ℕ, Role, Authenticated, Outcome, done, refused,
}
use passalong_server.Ids.{Text}
pub mod Changes
pub mod Revoked
pub mod RoundTrip
pub mod Consistent
pub mod Drawing
pub mod Atomic

pub data Call : Type 0 where
  create_workspace_call : Text → Option ℕ → Call
  delete_workspace_call : Text → Call
  create_key_call : Text → Text → Role → Option ℕ → Call
  extend_key_call : Text → Option ℕ → Call
  revoke_key_call : Text → Call
  delete_key_call : Text → Call
  prune_keys_call : ℕ → Call
  authenticate_call : Text → Call

-- Whether a call was refused, and the tables that it leaves.
abbrev pub void : {A : Type 0} → Outcome A → Outcome (Unit {0})
void (done a) = done tt
void (refused e) = refused e
void spins = spins

abbrev pub forget : {A : Type 0} → Outcome A × Database → Outcome (Unit {0}) × Database
forget x = (void x.0, x.1)

abbrev pub perform : Env → Call → Database → Outcome (Unit {0}) × Database
perform env (create_workspace_call name quota) db = forget (create_workspace env name quota db)
perform env (delete_workspace_call name) db = forget (delete_workspace env name db)
perform env (create_key_call name label role expires_in) db =
    forget (create_key env name label role expires_in db)
perform env (extend_key_call id expires_in) db = forget (extend_key env id expires_in db)
perform env (revoke_key_call id) db = forget (revoke_key env id db)
perform env (delete_key_call id) db = forget (delete_key env id db)
perform env (prune_keys_call older_than) db = forget (prune_keys env older_than db)
perform env (authenticate_call token) db = (done tt, (authenticate env token db).1)

abbrev pub after : Env → Call → Database → Database
after env call db = (perform env call db).1

abbrev pub after_all : List (Env × Call) → Database → Database
after_all [] db = db
after_all ((env, call) ∷ calls) db = after_all calls (after env call db)

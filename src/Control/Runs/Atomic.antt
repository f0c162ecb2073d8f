-- ===== src/Control/Runs/Atomic.antt =====
-- A command that is refused changes nothing, and what is done is not taken out of the audit trail.
use passalong_server.Control.Keys.{
  change_key, create_key, extend_key, revoke_key, delete_key, prune_keys,
}
use passalong_server.Control.Runs.Changes.{Laws, after-Laws}
use passalong_server.Control.Runs.{
  forget, delete_workspace, Call, create_key, after_all, extend_key, perform, after, revoke_key,
  delete_key, prune_keys, create_workspace_call, delete_workspace_call, create_key_call,
  extend_key_call, revoke_key_call, delete_key_call, prune_keys_call, authenticate_call,
}
use passalong_server.Control.Workspaces.{
  workspace, create_workspace, has_name, read_row, workspace_from, delete_workspace, valid_name,
}
use passalong_server.Base.{
  ℕ, ◌≡◌, refl, none, some, arith, inl, inr, List, [], ◌∷◌, ◌++◌, sym, ◌∙◌, ap, Bool-cases,
  Option-cases, find,
}
use passalong_server.Control.{
  M, Outcome, done, refused, spins, Database, settled, transaction, Env, AuditRow, and_then, Text,
  ControlError, WorkspaceInfo, ◌>>=◌, query,
}

-- Of a refusal: the tables from before. Of an answer it says nothing.
abbrev Restored : {A : Type 0} → Database → Outcome A × Database → Type 0
Restored before (done a, db) = Unit {0}
Restored before (refused e, db) = db ≡ before
Restored before (spins, db) = db ≡ before

settled-Restored :
    {A : Type 0} (before : Database) (x : Outcome A × Database) → Restored before (settled before x)
settled-Restored before (done a, db) = tt
settled-Restored before (refused e, db) = refl
settled-Restored before (spins, db) = refl

transaction-Restored :
    {A : Type 0} (env : Env) (body : M A) (db : Database) → Restored db (transaction env body db)
unfolding transaction
transaction-Restored env body db = settled-Restored db _

-- A look at the workspaces before the transaction changes nothing either.
workspace-Restored :
    {A : Type 0} (env : Env) (step : ℕ) (name : Text) (f : WorkspaceInfo → M A) (db : Database)
    → ((found : WorkspaceInfo) → Restored db (f found db))
    → Restored db ((workspace env step name >>= f) db)
unfolding workspace and_then
workspace-Restored env step name f db h = elim (Bool-cases (env.fails step)) [
  | inl e ↦ rw (e, query) refl
  | inr e ↦ elim (Option-cases (find (has_name name) db.workspaces)) [
    | inl w ↦ rw (e, query, w, read_row) refl
    | inr (row, w) ↦ elim (Option-cases (workspace_from row)) [
      | inl g ↦ rw (e, query, w, read_row, g) refl
      | inr (found, g) ↦ rw (e, query, w, read_row, g) (h found)
    ]
  ]
]

forget-Restored :
    {A : Type 0} (before : Database) (x : Outcome A × Database)
    → Restored before x
    → Restored before (forget x)
forget-Restored before (done a, db) r = tt
forget-Restored before (refused e, db) r = r
forget-Restored before (spins, db) r = r

perform-Restored : (env : Env) (call : Call) (db : Database) → Restored db (perform env call db)
unfolding create_workspace delete_workspace create_key extend_key revoke_key delete_key prune_keys
    change_key
perform-Restored env (create_workspace_call name quota) db = elim (Bool-cases (valid_name name)) [
  | inl e ↦ rw e (forget-Restored db _ (transaction-Restored env _ db))
  | inr e ↦ rw e refl
]
perform-Restored env (delete_workspace_call name) db =
    forget-Restored db _ (workspace-Restored env 1 name _ db λ found. transaction-Restored env _ db)
perform-Restored env (create_key_call name label role expires_in) db =
    forget-Restored db _ (workspace-Restored env 1 name _ db λ found. transaction-Restored env _ db)
perform-Restored env (extend_key_call id none) db =
    forget-Restored db _ (transaction-Restored env _ db)
perform-Restored env (extend_key_call id (some secs)) db =
    forget-Restored db _ (transaction-Restored env _ db)
perform-Restored env (revoke_key_call id) db = forget-Restored db _ (transaction-Restored env _ db)
perform-Restored env (delete_key_call id) db = forget-Restored db _ (transaction-Restored env _ db)
perform-Restored env (prune_keys_call older_than) db =
    forget-Restored db _ (transaction-Restored env _ db)
perform-Restored env (authenticate_call token) db = tt

-- A command that is refused, for whatever reason and at whatever statement, leaves every table as
-- it was.
pub perform-refused :
    (env : Env) (call : Call) (db : Database) (error : ControlError)
    → (perform env call db).0 ≡ refused error
    → (perform env call db).1 ≡ db
perform-refused env call db error h =
    restored (perform env call db) h (perform-Restored env call db)
  where
    restored : (x : Outcome (Unit {0}) × Database) → x.0 ≡ refused error → Restored db x → x.1 ≡ db
    restored (done a, after) e r = ground (arith, e)
    restored (refused f, after) e r = r
    restored (spins, after) e r = r

-- The trail after is lines before the trail from before.
abbrev pub IsTrailOf : Database → Database → Type 0
IsTrailOf a b = (lines : List AuditRow) × (b.audit ≡ lines ++ a.audit)

append-Laws : (env : Env) → Laws IsTrailOf env
append-Laws env = record {
  same = λ db. ([], refl);
  both = λ a b c f g. joined a b c f g;
  inserts_workspace = λ row name db named new free. ([], refl);
  deletes_rows = λ gone db. ([], refl);
  inserts_key = λ row db drawn new there. ([], refl);
  notes = λ row db. (row ∷ [], refl);
  changes = λ change other value db kind. ([], refl);
  prunes = λ before db. ([], refl);
  uses = λ other now db. ([], refl);
}
  where
    append_assoc : (a b c : List AuditRow) → (a ++ b) ++ c ≡ a ++ (b ++ c)
    append_assoc [] b c = refl
    append_assoc (x ∷ a) b c = ap (λ l. x ∷ l) (append_assoc a b c)

    joined : (a b c : Database) → IsTrailOf a b → IsTrailOf b c → IsTrailOf a c
    joined a b c (first, e) (second, f) =
        (second ++ first, f ∙ (ap (λ l. second ++ l) e ∙ sym (append_assoc second first a.audit)))

-- Whatever operators and clients do, a line of the audit trail stays where it is: the later trail is
-- the earlier one with newer lines in front.
pub after_all-IsTrailOf :
    (calls : List (Env × Call)) (db : Database) → IsTrailOf db (after_all calls db)
after_all-IsTrailOf [] db = ([], refl)
after_all-IsTrailOf ((env, call) ∷ calls) db =
    (append-Laws env).both db (after env call db) (after_all calls (after env call db))
      (after-Laws IsTrailOf env (append-Laws env) call db)
      (after_all-IsTrailOf calls (after env call db))

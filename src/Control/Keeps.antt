-- ===== src/Control/Keeps.antt =====
-- How an operation leaves the tables, along a do block: a relation of the tables before and after,
-- which holds of unchanged tables and of two steps where it holds of each.
use passalong_server.Control.{
  M, Database, Outcome, done, refused, spins, and_then, Env, ControlError, settled, query, execute,
  transaction, or_refuse, pure, ◌>>=◌, ◌>>◌, Text, WorkspaceRow, unavailable, no_such_workspace,
  no_such_key, WorkspaceInfo, KeyInfo,
}
use passalong_server.Base.{
  ℕ, ◌≡◌, refl, Option, none, some, inl, inr, Bool-cases, Option-cases, find, subst,
}
use passalong_server.Control.Workspaces.{workspace, read_row, or_damaged, workspace_from, has_name}
use passalong_server.Control.Keys.{key, read_key, Joined, or_before, key_from, is_joined_key, join}

module _ (R : Database → Database → Type 0) (same : (db : Database) → R db db)
    (both : (a b c : Database) → R a b → R b c → R a c) where
  abbrev pub Leaves : {A : Type 0} → M A → Type 0
  Leaves m = (db : Database) → R db (m db).1

  after-and_then :
      {A B : Type 0} (a : Database) (x : Outcome A × Database) (f : A → M B)
      → R a x.1
      → ((v : A) → Leaves (f v))
      → R a (and_then x f).1
  unfolding and_then
  after-and_then a (done v, db) f r h = both a db (f v db).1 r (h v db)
  after-and_then a (refused e, db) f r h = r
  after-and_then a (spins, db) f r h = r

  pub bind-Leaves :
      {A B : Type 0} (m : M A) (f : A → M B)
      → Leaves m
      → ((v : A) → Leaves (f v))
      → Leaves (m >>= f)
  bind-Leaves m f r h db = after-and_then db (m db) f (r db) h

  -- The same with what the first step answered.
  pub bind-saw_Leaves :
      {A B : Type 0} (m : M A) (f : A → M B)
      → Leaves m
      → ((v : A) (db mid : Database) → m db ≡ (done v, mid) → R mid (f v mid).1)
      → Leaves (m >>= f)
  unfolding and_then
  bind-saw_Leaves {A = A} {B = B} m f r h db = answered (m db) refl
    where
      answered : (x : Outcome A × Database) → m db ≡ x → R db (and_then (m db) f).1
      answered (done v, mid) e =
          rw e (both db mid (f v mid).1 (subst (λ x. R db x.1) e (r db)) (h v db mid e))
      answered (refused error, mid) e = rw e (subst (λ x. R db x.1) e (r db))
      answered (spins, mid) e = rw e (subst (λ x. R db x.1) e (r db))

  pub then-Leaves :
      {B : Type 0} (m : M (Unit {0})) (k : M B) → Leaves m → Leaves k → Leaves (m >> k)
  then-Leaves m k r h db = after-and_then db (m db) (λ _. k) (r db) (λ _. h)

  pub query-Leaves :
      {A : Type 0} (env : Env) (step : ℕ) (read : Database → A) → Leaves (query env step read)
  query-Leaves env step read db = elim (Bool-cases (env.fails step)) [
    | inl e ↦ rw (e, query) (same db)
    | inr e ↦ rw (e, query) (same db)
  ]

  pub execute-Leaves :
      (env : Env) (step : ℕ) (write : Database → Option Database)
      → ((db next : Database) → write db ≡ some next → R db next)
      → Leaves (execute env step write)
  execute-Leaves env step write h db = elim (Bool-cases (env.fails step)) [
    | inl e ↦ rw (e, execute) (same db)
    | inr e ↦ elim (Option-cases (write db)) [
      | inl w ↦ rw (e, w, execute) (same db)
      | inr (next, w) ↦ rw (e, w, execute) (h db next w)
    ]
  ]

  pub pure-Leaves : {A : Type 0} (a : A) → Leaves (pure a)
  pure-Leaves a db = same db

  pub or_refuse-Leaves : {A : Type 0} (e : ControlError) (o : Option A) → Leaves (or_refuse e o)
  or_refuse-Leaves e none db = same db
  or_refuse-Leaves e (some a) db = same db

  settled-Leaves :
      {A : Type 0} (before : Database) (x : Outcome A × Database)
      → R before x.1
      → R before (settled before x).1
  settled-Leaves before (done a, db) r = r
  settled-Leaves before (refused e, db) r = same before
  settled-Leaves before (spins, db) r = same before

  pub transaction-Leaves :
      {A : Type 0} (env : Env) (body : M A) → Leaves body → Leaves (transaction env body)
  unfolding transaction
  transaction-Leaves env body h db = settled-Leaves db _ (
      then-Leaves (query env 0 (λ _. tt)) (do a ← body; query env 100 (λ _. tt); pure a)
        (query-Leaves env 0 (λ _. tt))
        (bind-Leaves body (λ a. do query env 100 (λ _. tt); pure a) h
          (λ a.
            then-Leaves (query env 100 (λ _. tt)) (pure a) (query-Leaves env 100 (λ _. tt))
              (pure-Leaves a)))
        db)

  pub workspace-Leaves : (env : Env) (step : ℕ) (name : Text) → Leaves (workspace env step name)
  unfolding workspace
  workspace-Leaves env step name =
      bind-Leaves (query env step (λ db. find (has_name name) db.workspaces))
        (λ row. do found ← read_row row; or_refuse (no_such_workspace name) found)
        (query-Leaves env step (λ db. find (has_name name) db.workspaces))
        λ row.
          bind-Leaves (read_row row) (or_refuse (no_such_workspace name)) (read_row-Leaves row)
            (or_refuse-Leaves (no_such_workspace name))
    where
      read_row-Leaves : (row : Option WorkspaceRow) → Leaves (read_row row)
      read_row-Leaves none = pure-Leaves {A = Option WorkspaceInfo} none
      read_row-Leaves (some row) =
          bind-Leaves (or_damaged (workspace_from row)) (λ info. pure (some info))
            (or_refuse-Leaves unavailable (workspace_from row)) (λ info. pure-Leaves (some info))

  pub key-Leaves : (env : Env) (step : ℕ) (id : Text) → Leaves (key env step id)
  unfolding key
  key-Leaves env step id =
      bind-Leaves (query env step (λ db. find (is_joined_key id) (join db.api_keys db.workspaces)))
        (λ row. do found ← read_key row; or_refuse (no_such_key id) found)
        (query-Leaves env step (λ db. find (is_joined_key id) (join db.api_keys db.workspaces)))
        λ row.
          bind-Leaves (read_key row) (or_refuse (no_such_key id)) (read_key-Leaves row)
            (or_refuse-Leaves (no_such_key id))
    where
      read_key-Leaves : (row : Option Joined) → Leaves (read_key row)
      read_key-Leaves none = pure-Leaves {A = Option KeyInfo} none
      read_key-Leaves (some row) =
          bind-Leaves (or_damaged (key_from row)) (λ info. pure (some info))
            (or_refuse-Leaves unavailable (key_from row)) (λ info. pure-Leaves (some info))

  pub or_before-Leaves : {A : Type 0} (before : A) (m : M A) → Leaves (or_before before m)
  or_before-Leaves {A = A} before m db = answered (m db).0
    where
      answer_of : Outcome A → Outcome A × Database
      answer_of x = elim x [ done after ↦ (done after, db) | _ ↦ (done before, db) ]

      answered : (x : Outcome A) → R db (answer_of x).1
      answered (done a) = same db
      answered (refused e) = same db
      answered spins = same db

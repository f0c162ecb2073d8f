-- ===== src/Control/Answers.antt =====
-- What holds of an answer and of the tables beside it, along a do block; of a refusal it says nothing.
use passalong_server.Control.{
  M, Database, Outcome, done, refused, spins, and_then, Env, settled, query, execute, transaction,
  ◌>>=◌, ◌>>◌, Text, WorkspaceRow, WorkspaceInfo, KeyInfo,
}
use passalong_server.Base.{
  ℕ, ◌≡◌, Option, some, arith, inl, inr, Bool-cases, Option-cases, find, subst,
}
use passalong_server.Control.Workspaces.{workspace, read_row, has_name, workspace_from}
use passalong_server.Control.Keys.{key, read_key, Joined, is_joined_key, join, key_from, or_before}

abbrev pub Post : {A : Type 0} → (A → Database → Type 0) → Outcome A × Database → Type 0
Post Q (done a, db) = Q a db
Post Q (refused e, db) = Unit {0}
Post Q (spins, db) = Unit {0}

pub Post-done :
    {A : Type 0} (Q : A → Database → Type 0) (x : Outcome A × Database) (a : A)
    → x.0 ≡ done a
    → Post Q x
    → Q a x.1
Post-done {A = A} Q (done b, db) a h p = subst (λ v. Q v db) (same h) p
  where
    same : {x y : A} → done x ≡ done y → x ≡ y
    same e = cc
Post-done Q (refused e, db) a h p = ground arith
Post-done Q (spins, db) a h p = ground arith

and_then-Post :
    {A B : Type 0} (P : A → Database → Type 0) (Q : B → Database → Type 0)
    (x : Outcome A × Database) (f : A → M B)
    → Post P x
    → ((a : A) (mid : Database) → P a mid → Post Q (f a mid))
    → Post Q (and_then x f)
unfolding and_then
and_then-Post P Q (done a, db) f p h = h a db p
and_then-Post P Q (refused e, db) f p h = tt
and_then-Post P Q (spins, db) f p h = tt

pub bind-Post :
    {A B : Type 0} (P : A → Database → Type 0) (Q : B → Database → Type 0) (m : M A) (f : A → M B)
    (db : Database)
    → Post P (m db)
    → ((a : A) (mid : Database) → P a mid → Post Q (f a mid))
    → Post Q ((m >>= f) db)
bind-Post P Q m f db p h = and_then-Post P Q (m db) f p h

pub then-Post :
    {B : Type 0} (P : Unit {0} → Database → Type 0) (Q : B → Database → Type 0) (m : M (Unit {0}))
    (k : M B) (db : Database)
    → Post P (m db)
    → ((mid : Database) → P tt mid → Post Q (k mid))
    → Post Q ((m >> k) db)
then-Post P Q m k db p h = and_then-Post P Q (m db) (λ _. k) p (λ _ mid. h mid)

-- A statement that reads, and one that writes, with the rest of the block.
pub query-Post :
    {A B : Type 0} (Q : B → Database → Type 0) (env : Env) (step : ℕ) (read : Database → A)
    (f : A → M B) (db : Database)
    → Post Q (f (read db) db)
    → Post Q ((query env step read >>= f) db)
unfolding and_then
query-Post Q env step read f db p = elim (Bool-cases (env.fails step)) [
  | inl e ↦ rw (e, query) tt
  | inr e ↦ rw (e, query) p
]

pub query-then_Post :
    {B : Type 0} (Q : B → Database → Type 0) (env : Env) (step : ℕ) (k : M B) (db : Database)
    → Post Q (k db)
    → Post Q ((query env step (λ _. tt) >> k) db)
unfolding and_then
query-then_Post Q env step k db p = elim (Bool-cases (env.fails step)) [
  | inl e ↦ rw (e, query) tt
  | inr e ↦ rw (e, query) p
]

pub execute-Post :
    {B : Type 0} (Q : B → Database → Type 0) (env : Env) (step : ℕ)
    (write : Database → Option Database) (k : M B) (db : Database)
    → ((next : Database) → write db ≡ some next → Post Q (k next))
    → Post Q ((execute env step write >> k) db)
unfolding and_then
execute-Post Q env step write k db p = elim (Bool-cases (env.fails step)) [
  | inl e ↦ rw (e, execute) tt
  | inr e ↦ elim (Option-cases (write db)) [
    | inl w ↦ rw (e, w, execute) tt
    | inr (next, w) ↦ rw (e, w, execute) (p next w)
  ]
]

settled-Post :
    {A : Type 0} (Q : A → Database → Type 0) (before : Database) (x : Outcome A × Database)
    → Post Q x
    → Post Q (settled before x)
settled-Post Q before (done a, db) p = p
settled-Post Q before (refused e, db) p = p
settled-Post Q before (spins, db) p = p

pub transaction-Post :
    {A : Type 0} (Q : A → Database → Type 0) (env : Env) (body : M A) (db : Database)
    → Post Q (body db)
    → Post Q (transaction env body db)
unfolding transaction
transaction-Post Q env body db p = settled-Post Q db _ (
    query-then_Post Q env 0 _ db
      (bind-Post Q Q body _ db p (λ a mid q. query-then_Post Q env 100 _ mid q)))

-- The workspace that is found is that of the first row of the name, and the tables are as they were.
pub workspace-Post :
    {B : Type 0} (Q : B → Database → Type 0) (env : Env) (step : ℕ) (name : Text)
    (f : WorkspaceInfo → M B) (db : Database)
    → ((row : WorkspaceRow) (found : WorkspaceInfo)
        → find (has_name name) db.workspaces ≡ some row
        → workspace_from row ≡ some found
        → Post Q (f found db))
    → Post Q ((workspace env step name >>= f) db)
unfolding workspace and_then
workspace-Post Q env step name f db h = elim (Bool-cases (env.fails step)) [
  | inl e ↦ rw (e, query) tt
  | inr e ↦ elim (Option-cases (find (has_name name) db.workspaces)) [
    | inl w ↦ rw (e, query, w, read_row) tt
    | inr (row, w) ↦ elim (Option-cases (workspace_from row)) [
      | inl g ↦ rw (e, query, w, read_row, g) tt
      | inr (found, g) ↦ rw (e, query, w, read_row, g) (h row found w g)
    ]
  ]
]

pub key-Post :
    {B : Type 0} (Q : B → Database → Type 0) (env : Env) (step : ℕ) (id : Text) (f : KeyInfo → M B)
    (db : Database)
    → ((joined : Joined) (found : KeyInfo)
        → find (is_joined_key id) (join db.api_keys db.workspaces) ≡ some joined
        → key_from joined ≡ some found
        → Post Q (f found db))
    → Post Q ((key env step id >>= f) db)
unfolding key and_then
key-Post Q env step id f db h = elim (Bool-cases (env.fails step)) [
  | inl e ↦ rw (e, query) tt
  | inr e ↦ elim (Option-cases (find (is_joined_key id) (join db.api_keys db.workspaces))) [
    | inl w ↦ rw (e, query, w, read_key) tt
    | inr (joined, w) ↦ elim (Option-cases (key_from joined)) [
      | inl g ↦ rw (e, query, w, read_key, g) tt
      | inr (found, g) ↦ rw (e, query, w, read_key, g) (h joined found w g)
    ]
  ]
]

pub or_before-Post :
    {A : Type 0} (Q : A → Database → Type 0) (before : A) (m : M A) (db : Database)
    → ((a : A) → Q a db)
    → Post Q (or_before before m db)
or_before-Post {A = A} Q before m db h = answered (m db).0
  where
    answered :
        (x : Outcome A) → Post Q (elim x [ done after ↦ (done after, db) | _ ↦ (done before, db) ])
    answered (done a) = h a
    answered (refused e) = h before
    answered spins = h before

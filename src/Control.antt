-- ===== src/Control.antt =====
-- crates/passalong-server-core/src/control/mod.rs and schema.rs: the control database as an
-- operator and the authentication see it. A table is the list of its rows in the order of their
-- rowids, the audit trail the newest first; what an SQL statement of the source does to the tables is
-- written out as a function on them, with the constraints of the schema. A statement can fail at any
-- time (`fails`); a transaction that does not commit leaves the tables as they were.
pub mod Workspaces
pub mod Keys
pub mod Authenticate
pub mod Runs
pub mod Keeps
pub mod Answers
use passalong_server.Base.{
  ℕ, ◌+◌, min, Bool, true, false, Option, none, some, List, [], ◌∷◌, leb, if◌then◌else◌,
  Option-cases,
}
use passalong_server.Ids.{Bytes, Text, ApiKeyId, WorkspaceId}
use passalong_server.Record.{Caller, Role}

-- A column of type INTEGER.
pub data ℤ : Type 0 where
  pos negsuc : ℕ → ℤ

abbrev pub i64_max : ℕ
i64_max = 9_223_372_036_854_775_807

abbrev pub to_db : ℕ → ℤ
to_db number = pos (min number i64_max)

abbrev pub from_db : Option ℤ → Option ℕ
from_db none = none
from_db (some (pos number)) = some number
from_db (some (negsuc number)) = none

-- A row of each table; of `workspaces` without the columns of the ledger.
pub record WorkspaceRow : Type 0 where
  pub id : Text
  pub name : Option Text
  pub quota_bytes : Option ℤ
  pub created_at : ℤ

pub record KeyRow : Type 0 where
  pub key_id : Text
  pub workspace : Text
  pub secret_hash : Bytes
  pub label : Text
  pub role : Text
  pub created_at : ℤ
  pub expires_at : Option ℤ
  pub revoked_at : Option ℤ
  pub last_used_at : Option ℤ

pub record AuditRow : Type 0 where
  pub at : ℤ
  pub action : Text
  pub workspace : Option Text
  pub key_id : Option Text
  pub detail : Option Text

pub record Database : Type 0 where
  pub workspaces : List WorkspaceRow
  pub api_keys : List KeyRow
  pub audit : List AuditRow

-- The tables as the schema creates them.
abbrev pub new_database : Database
new_database = record { workspaces = []; api_keys = []; audit = [] }

pub record WorkspaceInfo : Type 0 where
  pub id : WorkspaceId
  pub name : Text
  pub quota_bytes : Option ℕ
  pub created_at : ℕ

pub data KeyState : Type 0 where
  active expired revoked : KeyState

pub record KeyInfo : Type 0 where
  pub id : ApiKeyId
  pub workspace : WorkspaceId
  pub workspace_name : Text
  pub label : Text
  pub role : Role
  pub created_at : ℕ
  pub expires_at : Option ℕ
  pub revoked_at : Option ℕ
  pub last_used_at : Option ℕ

-- `expires_at.is_some_and(|at| at <= now)`.
abbrev pub is_past : Option ℕ → ℕ → Bool
is_past none now = false
is_past (some at) now = leb at now

-- `KeyInfo::state`.
abbrev pub state : KeyInfo → ℕ → KeyState
state key now = elim key.revoked_at [
  | some at ↦ revoked
  | none ↦ if is_past key.expires_at now then expired else active
]

pub record Authenticated : Type 0 where
  pub workspace : WorkspaceId
  pub caller : Caller
  pub expires_at : Option ℕ
  pub label : Text

pub record AuditEntry : Type 0 where
  pub at : ℕ
  pub action : Text
  pub workspace : Option Text
  pub key_id : Option Text
  pub detail : Option Text

pub data ControlError : Type 0 where
  invalid_name name_taken no_such_workspace no_such_key : Text → ControlError
  unavailable : ControlError

-- What an operation is given from outside: the readings of the clock, what the random source draws
-- for a workspace's id and for the keys, and which statement fails. SHA-256 comes with it.
pub record Env : Type 0 where
  pub clock : ℕ → ℕ
  pub draw_id : Bytes
  pub draw_key : ℕ → Bytes × Bytes
  pub fails : ℕ → Bool
  pub sha256 : Bytes → Bytes

-- `Result<A, ControlError>`. `spins` is no result of the program: the search for a key id stands
-- there when its fuel is spent.
pub data Outcome (A : Type 0) : Type 0 where
  done : A → Outcome A
  refused : ControlError → Outcome A
  spins : Outcome A

-- An operation on the tables.
abbrev pub M : Type 0 → Type 0
M A = Database → Outcome A × Database

abbrev pub pure : {A : Type 0} → A → M A
pure a db = (done a, db)

abbrev pub refuse : {A : Type 0} → ControlError → M A
refuse e db = (refused e, db)

unfoldable pub and_then : {A B : Type 0} → Outcome A × Database → (A → M B) → Outcome B × Database
and_then (done a, db) f = f a db
and_then (refused e, db) f = (refused e, db)
and_then (spins, db) f = (spins, db)

infixl 5 ◌>>=◌ ◌>>◌
abbrev pub ◌>>=◌ : {A B : Type 0} → M A → (A → M B) → M B
(m >>= f) db = and_then (m db) f

abbrev pub ◌>>◌ : {B : Type 0} → M (Unit {0}) → M B → M B
(m >> k) db = and_then (m db) (λ _. k)

-- A statement that reads, and one that writes; `step` is its place in the operation.
abbrev pub query : {A : Type 0} → Env → ℕ → (Database → A) → M A
query env step read db = if env.fails step then (refused unavailable, db) else (done (read db), db)

-- A constraint that the statement would break makes it fail as well.
abbrev pub execute : Env → ℕ → (Database → Option Database) → M (Unit {0})
execute env step write db =
    if env.fails step
    then (refused unavailable, db)
    else elim (write db) [ none ↦ (refused unavailable, db) | some next ↦ (done tt, next) ]

-- `optional()` and `ok_or`.
abbrev pub or_refuse : {A : Type 0} → ControlError → Option A → M A
or_refuse e none = refuse e
or_refuse e (some a) = pure a

-- What a transaction leaves: what it did where it committed, and else the tables from before it.
abbrev pub settled : {A : Type 0} → Database → Outcome A × Database → Outcome A × Database
settled before (done a, db) = (done a, db)
settled before (refused e, db) = (refused e, before)
settled before (spins, db) = (spins, before)

-- `begin`, the statements, and `commit` as step 100.
unfoldable pub transaction : {A : Type 0} → Env → M A → M A
transaction env body db =
    settled db ((do query env 0 (λ _. tt); a ← body; query env 100 (λ _. tt); pure a) db)

-- `note`.
abbrev pub note_row : ℕ → Text → Option Text → Option Text → Option Text → AuditRow
note_row at action workspace key detail = record {
  at = to_db at;
  action = action;
  workspace = workspace;
  key_id = key;
  detail = detail;
}

abbrev pub write_line : AuditRow → Database → Option Database
write_line row db = some (record db { audit = row ∷ db.audit })

abbrev pub note : Env → ℕ → AuditRow → M (Unit {0})
note env step row = execute env step (write_line row)

-- `ready`.
abbrev pub ready : Env → M (Unit {0})
ready env = query env 1 (λ _. tt)

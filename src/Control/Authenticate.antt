-- ===== src/Control/Authenticate.antt =====
-- crates/passalong-server-core/src/control/mod.rs, `authenticate`: who a bearer token is from.
pub mod Sound
use passalong_server.Control.Workspaces.{parsed_id}
use passalong_server.Base.{◌&&◌, get_or, none, ◌-◌, not, false, find}
use passalong_server.Error.{
  Result, err, key_revoked, unauthenticated, service_unavailable, ok, key_expired,
}
use passalong_server.Auth.{
  SecretHash, ApiKey, of_nothing, matches, hash_of, parse_key, hash_from_bytes,
}
use passalong_server.Control.{
  Env, ℕ, Option, KeyRow, Database, Bool, if◌then◌else◌, true, some, from_db, Authenticated, leb,
  to_db, is_past,
}
use passalong_server.Ids.{Bytes, Text}
use passalong_server.Control.Keys.{is_key, role_from, update_key}

-- `LAST_USE_EVERY_SECS`.
abbrev pub last_use_every_secs : ℕ
last_use_every_secs = 60

abbrev pub stored_hash : Option KeyRow → SecretHash
stored_hash none = of_nothing
stored_hash (some row) = get_or (hash_from_bytes row.secret_hash) of_nothing

-- `row.filter(|_| right)`.
abbrev pub right_row : (Bytes → Bytes) → ApiKey → Option KeyRow → Option KeyRow
right_row sha256 presented row =
    if matches (stored_hash row) (hash_of sha256 presented) then row else none

abbrev pub is_last_use_stale : Option ℕ → ℕ → Bool
is_last_use_stale none now = true
is_last_use_stale (some at) now = leb last_use_every_secs (now - at)

abbrev pub set_last_used : Text → ℕ → Database → Database
set_last_used id now db = record db {
  api_keys = update_key id (λ row. record row { last_used_at = some (to_db now) }) db.api_keys;
}

-- The note of the last use, which may fail without harm.
abbrev pub note_use : Env → Text → ℕ → KeyRow → Database → Database
note_use env id now row db =
    if is_last_use_stale (from_db row.last_used_at) now && not (env.fails 2)
    then set_last_used id now db
    else db

abbrev pub who_is : KeyRow → ApiKey → Result Authenticated
who_is row presented = elim (parsed_id row.workspace) [
  | none ↦ err service_unavailable
  | some workspace ↦ ok (record {
    workspace = workspace;
    caller = record { key = presented.id; role = role_from row.role };
    expires_at = from_db row.expires_at;
    label = row.label;
  })
]

abbrev pub is_revoked : KeyRow → Bool
is_revoked row = elim row.revoked_at [ none ↦ false | some at ↦ true ]

-- For the right secret only.
abbrev pub admit : Env → ApiKey → ℕ → KeyRow → Database → Result Authenticated × Database
admit env presented now row db =
    if is_revoked row
    then (err key_revoked, db)
    else if is_past (from_db row.expires_at) now
    then (err key_expired, db)
    else (who_is row presented, note_use env presented.id now row db)

abbrev pub admit_right :
    Env → ApiKey → ℕ → Option KeyRow → Database → Result Authenticated × Database
admit_right env presented now none db = (err unauthenticated, db)
admit_right env presented now (some row) db = admit env presented now row db

abbrev pub authenticate_key : Env → ApiKey → Database → Result Authenticated × Database
authenticate_key env presented db =
    if env.fails 1
    then (err service_unavailable, db)
    else admit_right env presented (env.clock 0)
        (right_row env.sha256 presented (find (is_key presented.id) db.api_keys)) db

unfoldable pub authenticate : Env → Text → Database → Result Authenticated × Database
authenticate env token db = elim (parse_key token) [
  | none ↦ (err unauthenticated, db)
  | some presented ↦ authenticate_key env presented db
]

-- ===== src/Control/Keys.antt =====
-- crates/passalong-server-core/src/control/mod.rs: the operator's commands on API keys.
use passalong_server.Record.{read_write, read_only}
use passalong_server.Upload.{saturating_add}
use passalong_server.Auth.{ApiKey, hash_of, generate_key}
use passalong_server.Control.Workspaces.{
  parsed_id, is_name_before, order_by, has_id, workspace, or_damaged, collect,
}
use passalong_server.Ids.{Text-discrete}
use passalong_server.Base.{
  ℕ, ◌∷◌, if◌then◌else◌, holds, some, suc, map, true, filter, [], find, get_or, any, length, false,
  not, bytes_of, ltb, ◌||◌, none, ◌&&◌, ◌-◌, ◌++◌, ◌+◌, zero, leb, ◌/◌, ◌%◌,
}
use passalong_server.Control.{
  pos, negsuc, ◌>>=◌, ◌>>◌, Role, Text, KeyRow, List, Option, Env, Database, ℤ, Bool, M,
  WorkspaceRow, KeyInfo, WorkspaceId, WorkspaceInfo, done, query, transaction, to_db, pure, execute,
  from_db, spins, note, or_refuse, note_row, no_such_key, refused, unavailable, AuditRow,
}

-- `role_text`, and the reading of it.
abbrev pub role_text : Role → Text
role_text read_write = b'r' ∷ b'e' ∷ b'a' ∷ b'd' ∷ b'-' ∷ b'w' ∷ b'r' ∷ b'i' ∷ b't' ∷ b'e' ∷ []
role_text read_only = b'r' ∷ b'e' ∷ b'a' ∷ b'd' ∷ b'-' ∷ b'o' ∷ b'n' ∷ b'l' ∷ b'y' ∷ []

abbrev pub role_from : Text → Role
role_from text = if holds (Text-discrete text (role_text read_only)) then read_only else read_write

-- `WHERE key_id = ?`, and the row of `workspaces` that a key is joined with.
abbrev pub is_key : Text → KeyRow → Bool
is_key id row = holds (Text-discrete row.key_id id)

abbrev pub Joined : Type 0
Joined = KeyRow × WorkspaceRow

abbrev pub joined_with : KeyRow → Option WorkspaceRow → List Joined → List Joined
joined_with row none rest = rest
joined_with row (some place) rest = (row, place) ∷ rest

abbrev pub join : List KeyRow → List WorkspaceRow → List Joined
join [] places = []
join (row ∷ rows) places = joined_with row (find (has_id row.workspace) places) (join rows places)

abbrev pub key_info : KeyRow → WorkspaceRow → WorkspaceId → KeyInfo
key_info row place id = record {
  id = row.key_id;
  workspace = id;
  workspace_name = get_or place.name row.workspace;
  label = row.label;
  role = role_from row.role;
  created_at = get_or (from_db (some row.created_at)) 0;
  expires_at = from_db row.expires_at;
  revoked_at = from_db row.revoked_at;
  last_used_at = from_db row.last_used_at;
}

-- `key_from`.
abbrev pub key_from : Joined → Option KeyInfo
key_from (row, place) = elim (parsed_id row.workspace) [
  | none ↦ none
  | some id ↦ some (key_info row place id)
]

-- `INSERT INTO api_keys`: the key's id is the primary key, and its workspace has a row.
abbrev pub insert_key : KeyRow → Database → Option Database
insert_key row db =
    if any (is_key row.key_id) db.api_keys || not (any (has_id row.workspace) db.workspaces)
    then none
    else some (record db { api_keys = db.api_keys ++ row ∷ [] })

-- `expires_at.map(to_db)`.
abbrev pub db_time : Option ℕ → Option ℤ
db_time none = none
db_time (some at) = some (to_db at)

abbrev pub new_key : Env → WorkspaceId → Text → Role → Option ℕ → ApiKey → KeyRow
new_key env workspace label role expires_at key = record {
  key_id = key.id;
  workspace = workspace;
  secret_hash = hash_of env.sha256 key;
  label = label;
  role = role_text role;
  created_at = to_db (env.clock 0);
  expires_at = db_time expires_at;
  revoked_at = none;
  last_used_at = none;
}

-- The loop over candidates: as many rounds as there are keys, and one more, unless a query fails.
unfoldable pub draw_key_from : ℕ → Env → ℕ → M ApiKey
draw_key_from zero env n db = (spins, db)
draw_key_from (suc fuel) env n db =
    let rest = draw_key_from fuel env (suc n) db in
    let candidate = generate_key (env.draw_key n) in
    if env.fails (1000 + n)
    then (refused unavailable, db)
    else if any (is_key candidate.id) db.api_keys
    then rest
    else (done candidate, db)

abbrev pub key_fuel : Database → ℕ
key_fuel db = suc (length db.api_keys)

abbrev pub fresh_key : Env → M ApiKey
fresh_key env db = draw_key_from (key_fuel db) env 0 db

-- `expires_in.map(|secs| now.saturating_add(secs))`.
abbrev pub expiry : ℕ → Option ℕ → Option ℕ
expiry now none = none
expiry now (some secs) = some (saturating_add now secs)

abbrev pub info_of_new : Env → WorkspaceInfo → Text → Role → Option ℕ → ApiKey → KeyInfo
info_of_new env found label role expires_at key = record {
  id = key.id;
  workspace = found.id;
  workspace_name = found.name;
  label = label;
  role = role;
  created_at = env.clock 0;
  expires_at = expires_at;
  revoked_at = none;
  last_used_at = none;
}

abbrev pub key_line : Env → WorkspaceInfo → Text → ApiKey → AuditRow
key_line env found label key =
    note_row (env.clock 0) (bytes_of "key.create") (some found.id) (some key.id) (some label)

abbrev pub store_key : Env → WorkspaceInfo → Text → Role → Option ℕ → ApiKey → M (ApiKey × KeyInfo)
store_key env found label role expires_at key = do
  execute env 101 (insert_key (new_key env found.id label role expires_at key))
  note env 102 (key_line env found label key)
  pure (key, info_of_new env found label role expires_at key)

abbrev pub add_key : Env → WorkspaceInfo → Text → Role → Option ℕ → M (ApiKey × KeyInfo)
add_key env found label role expires_at = do
  key ← fresh_key env
  store_key env found label role expires_at key

unfoldable pub create_key : Env → Text → Text → Role → Option ℕ → M (ApiKey × KeyInfo)
create_key env name label role expires_in = do
  found ← workspace env 1 name
  transaction env (add_key env found label role (expiry (env.clock 0) expires_in))

-- `ORDER BY w.name, k.created_at, k.rowid`; the rows come in the order of their rowids.
abbrev pub le_db : ℤ → ℤ → Bool
le_db (pos a) (pos b) = leb a b
le_db (pos a) (negsuc b) = false
le_db (negsuc a) (pos b) = true
le_db (negsuc a) (negsuc b) = leb b a

abbrev pub is_listed_before : Joined → Joined → Bool
is_listed_before (row, place) (row', place') =
    if is_name_before place'.name place.name
    then is_name_before place.name place'.name && le_db row.created_at row'.created_at
    else true

abbrev pub of_workspace : Option WorkspaceInfo → Joined → Bool
of_workspace none j = true
of_workspace (some found) (row, place) = holds (Text-discrete row.workspace found.id)

abbrev pub found_by_name : Env → Option Text → M (Option WorkspaceInfo)
found_by_name env none = pure none
found_by_name env (some name) = do found ← workspace env 1 name; pure (some found)

unfoldable pub keys : Env → Option Text → M (List KeyInfo)
keys env name = do
  only ← found_by_name env name
  rows ← query env 2 (λ db.
      order_by is_listed_before (filter (of_workspace only) (join db.api_keys db.workspaces)))
  or_damaged (collect key_from rows)

-- `key`.
abbrev pub read_key : Option Joined → M (Option KeyInfo)
read_key none = pure none
read_key (some row) = do info ← or_damaged (key_from row); pure (some info)

abbrev pub is_joined_key : Text → Joined → Bool
is_joined_key id (row, place) = is_key id row

unfoldable pub key : Env → ℕ → Text → M KeyInfo
key env step id = do
  row ← query env step (λ db. find (is_joined_key id) (join db.api_keys db.workspaces))
  found ← read_key row
  or_refuse (no_such_key id) found

-- `or(Ok(before))`.
abbrev pub or_before : {A : Type 0} → A → M A → M A
or_before before m db = elim (m db).0 [ done after ↦ (done after, db) | _ ↦ (done before, db) ]

-- The three statements that `change_key` is given.
abbrev pub Change : Type 0
Change = Text → Option ℤ → List KeyRow → List KeyRow

abbrev pub update_key : Text → (KeyRow → KeyRow) → List KeyRow → List KeyRow
update_key id set rows = map (λ row. if is_key id row then set row else row) rows

abbrev pub set_expiry : Change
set_expiry id value = update_key id (λ row. record row { expires_at = value })

abbrev pub coalesce : Option ℤ → Option ℤ → Option ℤ
coalesce none other = other
coalesce (some a) other = some a

abbrev pub set_revoked : Change
set_revoked id value =
    update_key id (λ row. record row { revoked_at = coalesce row.revoked_at value })

abbrev pub is_null : Option ℤ → Bool
is_null none = true
is_null (some a) = false

abbrev pub delete_where_null : Change
delete_where_null id value = filter (λ row. not (is_key id row && is_null value))

abbrev pub write_change : Text → Change → Option ℤ → Database → Option Database
write_change id change value db = some (record db { api_keys = change id value db.api_keys })

abbrev pub note_change : Env → ℕ → Text → Text → KeyInfo → M KeyInfo
note_change env now id action before = do
  note env 3 (note_row now action (some before.workspace) (some id) none)
  or_before before (key env 4 id)

abbrev pub change_body : Env → ℕ → Text → Text → Change → Option ℤ → M KeyInfo
change_body env now id action change value = do
  before ← key env 1 id
  execute env 2 (write_change id change value)
  note_change env now id action before

-- `change_key`; `now` is its own reading of the clock.
unfoldable pub change_key : Env → ℕ → Text → Text → Change → Option ℤ → M KeyInfo
change_key env now id action change value =
    transaction env (change_body env now id action change value)

-- Each reads the clock for the value, where there is one, and `change_key` once more.
unfoldable pub extend_key : Env → Text → Option ℕ → M KeyInfo
extend_key env id none = change_key env (env.clock 0) id (bytes_of "key.extend") set_expiry none
extend_key env id (some secs) =
    change_key env (env.clock 1) id (bytes_of "key.extend") set_expiry
      (some (to_db (saturating_add (env.clock 0) secs)))

unfoldable pub revoke_key : Env → Text → M KeyInfo
revoke_key env id =
    change_key env (env.clock 1) id (bytes_of "key.revoke") set_revoked (some (to_db (env.clock 0)))

unfoldable pub delete_key : Env → Text → M KeyInfo
delete_key env id = change_key env (env.clock 0) id (bytes_of "key.delete") delete_where_null none

-- `to_string` of a number; a number has no more digits than it counts.
unfoldable pub digits : ℕ → ℕ → Text
digits zero n = []
digits (suc fuel) n =
    let rest = digits fuel (n / 10) in
    if ltb n 10 then (b'0' + n) ∷ [] else rest ++ (b'0' + n % 10) ∷ []

abbrev pub to_string : ℕ → Text
to_string n = digits (suc n) n

-- `coalesce(revoked_at, expires_at) <= ?1`, which is not so of NULL.
abbrev pub is_stale : ℤ → KeyRow → Bool
is_stale before row = elim (coalesce row.revoked_at row.expires_at) [
  | none ↦ false
  | some at ↦ le_db at before
]

abbrev pub note_pruned : Env → ℕ → M (Unit {0})
note_pruned env pruned =
    if ltb 0 pruned
    then note env 3
        (note_row (env.clock 0) (bytes_of "key.prune") none none (some (to_string pruned)))
    else pure tt

abbrev pub prune_body : Env → ℤ → M ℕ
prune_body env before = do
  pruned ← query env 1 (λ db. length (filter (is_stale before) db.api_keys))
  execute env 1
      (λ db. some (record db { api_keys = filter (λ row. not (is_stale before row)) db.api_keys }))
  note_pruned env pruned
  pure pruned

unfoldable pub prune_keys : Env → ℕ → M ℕ
prune_keys env older_than = transaction env (prune_body env (to_db (env.clock 0 - older_than)))

-- ===== src/Control/Workspaces.antt =====
-- crates/passalong-server-core/src/control/mod.rs: the workspaces and the audit trail.
use passalong_server.Error.{ok}
use passalong_server.Map.Order.{compare_text}
use passalong_server.Control.{
  WorkspaceRow, AuditRow, WorkspaceInfo, or_refuse, Database, AuditEntry, from_db, unavailable,
  pure, refuse, transaction, query, name_taken, i64_max, M, Env, ◌>>=◌, to_db, ◌>>◌,
  no_such_workspace, execute, invalid_name, note, note_row,
}
use passalong_server.Ids.{Text, WorkspaceId, Text-discrete, parse_workspace_id, generate}
use passalong_server.Base.{
  ℕ, Bool, true, false, not, ◌&&◌, ◌||◌, Option, none, some, get_or, List, [], ◌∷◌, map, leb, holds,
  any, all, find, filter, take, length, if◌then◌else◌, bytes_of, ◌==◌, ◌++◌, min,
}
use Prim.Native.Nat.{Ordering}

unfoldable pub valid_name : Text → Bool
valid_name [] = false
valid_name (first ∷ name) =
    leb b'a' first
    && leb first b'z'
    && leb (length (first ∷ name)) 32
    && all (λ b. leb b'a' b && leb b b'z' || leb b'0' b && leb b b'9' || b == b'-') name

-- `WHERE id = ?` and `WHERE name = ?`.
abbrev pub has_id : Text → WorkspaceRow → Bool
has_id id row = holds (Text-discrete row.id id)

abbrev pub has_name : Text → WorkspaceRow → Bool
has_name name row = elim row.name [ none ↦ false | some given ↦ holds (Text-discrete given name) ]

abbrev pub parsed_id : Text → Option WorkspaceId
parsed_id id = elim (parse_workspace_id id) [ ok parsed ↦ some parsed | _ ↦ none ]

abbrev pub info_of : WorkspaceRow → WorkspaceId → WorkspaceInfo
info_of row id = record {
  id = id;
  name = get_or row.name row.id;
  quota_bytes = from_db row.quota_bytes;
  created_at = get_or (from_db (some row.created_at)) 0;
}

-- `workspace_from`: none where the row's id is damaged.
abbrev pub workspace_from : WorkspaceRow → Option WorkspaceInfo
workspace_from row = elim (parsed_id row.id) [ none ↦ none | some id ↦ some (info_of row id) ]

-- A row that was read, as the query that asked for it answers: a damaged one fails the query.
abbrev pub or_damaged : {A : Type 0} → Option A → M A
or_damaged row = or_refuse unavailable row

abbrev pub read_row : Option WorkspaceRow → M (Option WorkspaceInfo)
read_row none = pure none
read_row (some row) = do info ← or_damaged (workspace_from row); pure (some info)

-- `rows.collect()`.
abbrev pub cons_all : {A : Type 0} → Option A → Option (List A) → Option (List A)
cons_all none rest = none
cons_all (some a) none = none
cons_all (some a) (some rest) = some (a ∷ rest)

abbrev pub collect : {A B : Type 0} → (A → Option B) → List A → Option (List B)
collect f [] = some []
collect f (a ∷ rows) = cons_all (f a) (collect f rows)

-- `ORDER BY`: stable, by a test of whether a row may stand before another.
abbrev pub insert_row : {A : Type 0} → (A → A → Bool) → A → List A → List A
insert_row before row [] = row ∷ []
insert_row before row (other ∷ rows) =
    let rest = insert_row before row rows in
    if before row other then row ∷ other ∷ rows else other ∷ rest

abbrev pub order_by : {A : Type 0} → (A → A → Bool) → List A → List A
order_by before [] = []
order_by before (row ∷ rows) = insert_row before row (order_by before rows)

-- Names, bytewise, and NULL before them.
abbrev pub is_name_before : Option Text → Option Text → Bool
is_name_before none other = true
is_name_before (some name) none = false
is_name_before (some name) (some other) = elim (compare_text name other) [
  | Ordering.gt ↦ false
  | _ ↦ true
]

-- `workspaces`.
unfoldable pub workspaces : Env → M (List WorkspaceInfo)
workspaces env = do
  rows ← query env 1 (λ db. order_by (λ a b. is_name_before a.name b.name) db.workspaces)
  or_damaged (collect workspace_from rows)

-- `workspace` and `workspace_by_id`; `step` is where the statement stands in the operation.
unfoldable pub workspace : Env → ℕ → Text → M WorkspaceInfo
workspace env step name = do
  row ← query env step (λ db. find (has_name name) db.workspaces)
  found ← read_row row
  or_refuse (no_such_workspace name) found

unfoldable pub workspace_by_id : Env → WorkspaceId → M (Option WorkspaceInfo)
workspace_by_id env id = do row ← query env 1 (λ db. find (has_id id) db.workspaces); read_row row

-- `INSERT INTO workspaces`: the id is the primary key, and a name stands once.
abbrev pub insert_workspace : WorkspaceRow → Text → Database → Option Database
insert_workspace row name db =
    if any (has_id row.id) db.workspaces || any (has_name name) db.workspaces
    then none
    else some (record db { workspaces = db.workspaces ++ row ∷ [] })

abbrev pub new_workspace : Env → Text → Option ℕ → WorkspaceRow
new_workspace env name quota = record {
  id = generate env.draw_id;
  name = some name;
  quota_bytes = elim quota [ none ↦ none | some bytes ↦ some (to_db bytes) ];
  created_at = to_db (env.clock 0);
}

abbrev pub create_free : Env → Text → Option ℕ → Bool → M WorkspaceInfo
create_free env name quota true = refuse (name_taken name)
create_free env name quota false = do
  execute env 2 (insert_workspace (new_workspace env name quota) name)
  note env 3 (
      note_row (env.clock 0) (bytes_of "workspace.create") (some (generate env.draw_id)) none
        (some name))
  pure (record {
    id = generate env.draw_id;
    name = name;
    quota_bytes = quota;
    created_at = env.clock 0;
  })

unfoldable pub create_workspace : Env → Text → Option ℕ → M WorkspaceInfo
create_workspace env name quota =
    if valid_name name
    then transaction env (do
      taken ← query env 1 (λ db. any (has_name name) db.workspaces)
      create_free env name quota taken)
    else refuse (invalid_name name)

-- `DELETE FROM workspaces WHERE id = ?`, and by `ON DELETE CASCADE` the keys of the workspace.
abbrev pub delete_rows : WorkspaceId → Database → Option Database
delete_rows id db = some (record db {
  workspaces = filter (λ row. not (has_id id row)) db.workspaces;
  api_keys = filter (λ row. not (holds (Text-discrete row.workspace id))) db.api_keys;
})

unfoldable pub delete_workspace : Env → Text → M WorkspaceInfo
delete_workspace env name = do
  found ← workspace env 1 name
  transaction env (do
    execute env 2 (delete_rows found.id)
    note env 3
        (note_row (env.clock 0) (bytes_of "workspace.delete") (some found.id) none (some name))
    pure found)

abbrev pub entry_from : AuditRow → AuditEntry
entry_from row = record {
  at = get_or (from_db (some row.at)) 0;
  action = row.action;
  workspace = row.workspace;
  key_id = row.key_id;
  detail = row.detail;
}

-- `audit`.
unfoldable pub audit : Env → ℕ → M (List AuditEntry)
audit env limit = query env 1 (λ db. map entry_from (take (min limit i64_max) db.audit))

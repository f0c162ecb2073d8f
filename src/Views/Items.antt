-- ===== src/Views/Items.antt =====
-- The listings and lookups of crates/passalong-server-core/src/workspace.rs, and those of a staged
-- generation in rewrite.rs.
use passalong_server.Base.{
  ℕ, ◌+◌, Bool, true, false, ◌&&◌, ◌||◌, List, [], ◌∷◌, Option, none, some, ◌==◌, leb,
  if◌then◌else◌, length, filter, all, any, map, reverse,
}
use Prim.Native.Nat.{Ordering}
use passalong_server.Error.{Result, ok, or_fail, ◌>>=◌, not_found}
use passalong_server.Ids.{Bytes, Text, ItemId, content_key, is_hex_digit}
use passalong_server.Map.Order.{compare_text}
use passalong_server.Record.{Caller, Partition, current, WorkspaceRecord}
use passalong_server.Shelf.{ItemShelf, StoredItem}
use passalong_server.Views.{generation_of, find_in, held_session}

pub data Resolved : Type 0 where
  unique : ItemId → Resolved
  ambiguous : List ItemId → Resolved
  unknown invalid_prefix : Resolved

-- `a > b` of two ids, in the order of their texts.
abbrev pub is_newer : ItemId → ItemId → Bool
is_newer a b = elim (compare_text a b) [ Ordering.gt ↦ true | _ ↦ false ]

-- `str::trim`, on the white space of ASCII, and `to_ascii_lowercase`.
abbrev is_space : ℕ → Bool
is_space b = b == b' ' || leb 9 b && leb b 13

unfoldable pub trim_start : Text → Text
trim_start [] = []
trim_start (b ∷ text) = let rest = trim_start text in if is_space b then rest else b ∷ text

unfoldable pub trim : Text → Text
unfolding trim_start
trim text = reverse (trim_start (reverse (trim_start text)))

unfoldable pub lower : ℕ → ℕ
lower b = if leb b'A' b && leb b b'Z' then b + 32 else b

-- `starts_with`.
unfoldable pub starts_with : Text → Text → Bool
starts_with text [] = true
starts_with [] (p ∷ prefix) = false
starts_with (b ∷ text) (p ∷ prefix) = b == p && starts_with text prefix

-- `is_ascii_hexdigit` of a lower-case byte, or the dash.
abbrev is_typed : ℕ → Bool
is_typed b = is_hex_digit b || b == b'-'

-- At least 4 characters, all hex digits but for at most one dash.
unfoldable pub is_well_formed : Text → Bool
is_well_formed typed =
    leb 4 (length typed) && all is_typed typed && leb (length (filter (λ b. b == b'-') typed)) 1

unfoldable pub is_match : Text → ItemId → Bool
unfolding starts_with
is_match typed id =
    if any (λ b. b == b'-') typed then starts_with id typed else starts_with (content_key id) typed

abbrev classify : List ItemId → Resolved
classify [] = unknown
classify (id ∷ []) = unique id
classify (id ∷ id' ∷ rest) = ambiguous (id ∷ id' ∷ rest)

module _ (sh : ItemShelf) where
  unfoldable pub item_ids : WorkspaceRecord → Partition → sh.State → Result (List ItemId)
  item_ids rec partition s = elim (generation_of rec partition) [
    | some generation ↦ sh.ids generation s
    | none ↦ ok []
  ]

  unfoldable pub item_ids_after :
      WorkspaceRecord → Partition → Option ItemId → sh.State → Result (List ItemId)
  unfolding item_ids
  item_ids_after rec partition after s = do
    ids ← item_ids rec partition s
    ok (elim after [ none ↦ ids | some a ↦ filter (λ id. is_newer id a) ids ])

  unfoldable pub item : WorkspaceRecord → Partition → ItemId → sh.State → Result (Option StoredItem)
  item rec partition id s = elim (generation_of rec partition) [
    | some generation ↦ sh.fetch generation id s
    | none ↦ ok none
  ]

  -- The loop of `items_after`: an item that is gone by now is left out.
  abbrev with_item :
      ItemId → Option StoredItem → List (ItemId × StoredItem) → List (ItemId × StoredItem)
  with_item id none items = items
  with_item id (some i) items = (id, i) ∷ items

  unfoldable pub collect_items :
      WorkspaceRecord → Partition → List ItemId → sh.State → Result (List (ItemId × StoredItem))
  unfolding item
  collect_items rec partition [] s = ok []
  collect_items rec partition (id ∷ ids) s = do
    found ← item rec partition id s
    items ← collect_items rec partition ids s
    ok (with_item id found items)

  unfoldable pub items_after :
      WorkspaceRecord → Partition → Option ItemId → sh.State → Result (List (ItemId × StoredItem))
  unfolding item_ids_after collect_items
  items_after rec partition after s = do
    ids ← item_ids_after rec partition after s
    collect_items rec partition ids s

  unfoldable pub resolve_item : WorkspaceRecord → Text → sh.State → Result Resolved
  unfolding item_ids is_well_formed is_match trim lower
  resolve_item rec input s =
      let typed : Text = map lower (trim input) in
      if is_well_formed typed
      then (do ids ← item_ids rec current s; ok (classify (filter (is_match typed) ids)))
      else ok invalid_prefix

  unfoldable pub item_content_from :
      WorkspaceRecord → Partition → ItemId → ℕ → sh.State → Result (Option Bytes)
  item_content_from rec partition id offset s = elim (generation_of rec partition) [
    | some generation ↦ sh.open_content_from generation id offset s
    | none ↦ ok none
  ]

  unfoldable pub find_by_content_key : WorkspaceRecord → Text → sh.State → Result (Option ItemId)
  unfolding find_in
  find_by_content_key rec key s = find_in sh rec.generation key s

  -- The holder's own reading of what it has staged.
  unfoldable pub staged_item_ids : WorkspaceRecord → Caller → sh.State → Result (List ItemId)
  unfolding held_session
  staged_item_ids rec caller s = do
    session ← held_session rec caller
    sh.ids session.staged_generation s

  unfoldable pub staged_item : WorkspaceRecord → Caller → ItemId → sh.State → Result StoredItem
  unfolding held_session
  staged_item rec caller id s = do
    session ← held_session rec caller
    found ← sh.fetch session.staged_generation id s
    or_fail not_found found

  unfoldable pub staged_item_content_from :
      WorkspaceRecord → Caller → ItemId → ℕ → sh.State → Result Bytes
  unfolding held_session
  staged_item_content_from rec caller id offset s = do
    session ← held_session rec caller
    found ← sh.open_content_from session.staged_generation id offset s
    or_fail not_found found

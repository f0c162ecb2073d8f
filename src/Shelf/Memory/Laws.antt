-- ===== src/Shelf/Memory/Laws.antt =====
-- The shelf in memory keeps what the rules rely on of a shelf's bytes.
use passalong_server.Base.{
  ℕ, subst, Option-cases, inl, inr, ◌+◌, ◌≡◌, refl, ◌∙◌, ap, ◌≢◌, Bool, true, false, List, [], ◌∷◌,
  Option, none, some, arith, length, find, holds,
}
use mathlib.Core.List.{reverse-reverse}
use passalong_server.Error.{ok}
use passalong_server.Ids.{Bytes, ItemId, UploadId, content_key, Text-discrete}
use passalong_server.Map.{Map, get, contains_key, insert, remove, keys}
use passalong_server.Map.Laws.{get-insert_self, get-insert_ne, get-remove_ne}
use passalong_server.Map.Order.{nat_ord, text_ord}
use passalong_server.Shelf.{Envelope, Chunk}
use passalong_server.Shelf.Laws.{ShelfLaws, Only, Taken, Added}
use passalong_server.Shelf.Memory.{
  Shelves, content_bytes, items_of, memory_shelf, create_staging, write, publish_staged,
  remove_item,
}
use passalong_server.Views.{find_in}

abbrev Items : Type 0
Items = Map ItemId (Bytes × Envelope)

abbrev pub held : ℕ → Shelves → ℕ
held g s = content_bytes (items_of g s)

-- An item that is not there adds its bytes, and one that is removed takes them away.
content_bytes-insert :
    (id : ItemId) (e : Bytes × Envelope) (m : Items)
    → contains_key id m ≡ false
    → content_bytes (insert id e m) ≡ content_bytes m + length e.0
unfolding insert contains_key
content_bytes-insert id e [] h = omega arith
content_bytes-insert id e ((j, w) ∷ m) h = ground (arith, content_bytes-insert id e m)

content_bytes-remove :
    (id : ItemId) (m : Items) (e : Bytes × Envelope)
    → get id m ≡ some e
    → content_bytes (remove id m) + length e.0 ≡ content_bytes m
unfolding remove get
content_bytes-remove id [] e h = ground arith
content_bytes-remove id ((j, w) ∷ m) e h = ground (arith, content_bytes-remove id m e)

remove-none :
    (id : ItemId) (m : Items) → get id m ≡ none → content_bytes (remove id m) ≡ content_bytes m
unfolding remove get
remove-none id [] h = refl
remove-none id ((j, w) ∷ m) h = ground (arith, remove-none id m)

held-set :
    (g : ℕ) (m : Items) (s : Shelves)
    → held g (record s { shelved = insert g m s.shelved }) ≡ content_bytes m
held-set g m s = rw (get-insert_self g m s.shelved) refl

held-set_ne :
    (g h : ℕ) (m : Items) (s : Shelves)
    → h ≢ g
    → held h (record s { shelved = insert g m s.shelved }) ≡ held h s
held-set_ne g h m s d = rw (get-insert_ne g h m s.shelved d) refl

pub create-held : (u : UploadId) (g : ℕ) (s : Shelves) → held g (create_staging u s).1 ≡ held g s
unfolding create_staging
create-held u g s = ground arith

pub write-held :
    (sha : Bytes → Bytes) (u : UploadId) (c : List Chunk) (n : ℕ) (b : Bool) (g : ℕ) (s : Shelves)
    → held g (write sha u c n b s).1 ≡ held g s
unfolding write
write-held sha u c n b g s = ground arith

pub remove-Only : (g : ℕ) (id : ItemId) (s : Shelves) → Only held g s (remove_item g id s).1
unfolding remove_item
remove-Only g id s h d = grind (arith, held-set_ne)

pub publish-Only :
    (u : UploadId) (g : ℕ) (id : ItemId) (e : Envelope) (s : Shelves)
    → Only held g s (publish_staged u g id e s).1
unfolding publish_staged
publish-Only u g id e s h d = grind (arith, held-set_ne)

pub remove-Taken :
    (g : ℕ) (id : ItemId) (s : Shelves)
    → Taken (held g s) (held g (remove_item g id s).1) (remove_item g id s).0
unfolding remove_item
remove-Taken g id s = elim (Option-cases (get g s.shelved)) [
  | inl gone ↦ rw (gone, remove_item) (rw gone refl)
  | inr (items, is) ↦ elim (Option-cases (get id items)) [
    | inl gone ↦
        rw (is, remove_item, gone) (held-set g (remove id items) s ∙ remove-none id items gone)
    | inr (e, at) ↦
        rw (is, remove_item, at)
          (ap (λ n. n + length e.0) (held-set g (remove id items) s)
            ∙ content_bytes-remove id items e at)
  ]
]

-- Where no key of the map has that content key, no item of that id is in it.
unfound :
    (id : ItemId) (m : Items)
    → find (λ i. holds (Text-discrete (content_key i) (content_key id))) (keys m) ≡ none
    → contains_key id m ≡ false
unfolding contains_key
unfound id [] h = refl
unfound id ((j, w) ∷ m) h = ground (arith, text_ord.cmp_eq id j, unfound id m)

pub publish-Added :
    (sha : Bytes → Bytes) (u : UploadId) (g : ℕ) (id : ItemId) (e : Envelope) (s : Shelves) (n : ℕ)
    → (memory_shelf sha).stage_size u s ≡ ok (some n)
    → find_in (memory_shelf sha) g (content_key id) s ≡ ok none
    → Added (held g s) n (held g (publish_staged u g id e s).1) (publish_staged u g id e s).0
unfolding publish_staged find_in
publish-Added sha u g id e s n staged free = elim (Option-cases (get u s.staging)) [
  | inl gone ↦ ground (arith, gone)
  | inr (place, at) ↦
      let absent = unfound id (items_of g s) (seen free) in
      rw (at, publish_staged, absent)
        (held-set g (insert id (place.0, e) (items_of g s)) s
          ∙ content_bytes-insert id (place.0, e) (items_of g s) absent
          ∙ ap (λ k. held g s + k) (size_of at staged))
]
  where
    oldest : List ItemId → Option ItemId
    oldest ids = find (λ i. holds (Text-discrete (content_key i) (content_key id))) ids

    seen :
        find_in (memory_shelf sha) g (content_key id) s ≡ ok none
        → oldest (keys (items_of g s)) ≡ none
    seen h =
        subst (λ ids. oldest ids ≡ none) (reverse-reverse (keys (items_of g s))) (ground (arith, h))

    size_of :
        {place : Bytes × Option Bytes}
        → get u s.staging ≡ some place
        → (memory_shelf sha).stage_size u s ≡ ok (some n)
        → length place.0 ≡ n
    size_of at h = ground (arith, at, h)

-- The bytes of a generation are those of its items' content.
abbrev pub memory_laws : (sha : Bytes → Bytes) → ShelfLaws (memory_shelf sha)
memory_laws sha = record {
  count = held;
  bytes_count = λ g s n h. ground (arith, h);
  create_same = λ u s g. create-held u g s;
  write_same = λ u c n s g. write-held sha u c n false g s;
  write_hashed_same = λ u c n s g. write-held sha u c n true g s;
  unstage_same = λ u s g. refl;
  publish_added = publish-Added sha;
  publish_only = publish-Only;
  remove_taken = remove-Taken;
  remove_only = remove-Only;
  drop_only = λ g s h d. rw (get-remove_ne g h s.shelved d) refl;
}

-- The shelf in memory, with any digest, keeps every law that the rules rely on of a shelf's bytes:
-- staging changes none, a publish of a new content key adds the staged bytes to its generation alone,
-- a removal takes the item's bytes from its generation alone, and a drop changes no other generation.
pub memory_shelf-ShelfLaws : (sha : Bytes → Bytes) → ShelfLaws (memory_shelf sha)
memory_shelf-ShelfLaws sha = memory_laws sha

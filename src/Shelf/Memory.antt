-- ===== src/Shelf/Memory.antt =====
-- crates/passalong-server-core/src/shelf/memory.rs: the shelf in memory. Its lock makes each method
-- one step, so a method is a function on what the lock guards. SHA-256 is a parameter.
pub mod Laws
use passalong_server.Base.{
  ℕ, Bool, true, false, List, [], ◌∷◌, Option, none, some, get_or, if◌then◌else◌, length, drop, map,
  reverse, sum, filter, not, ◌==◌,
}
use mathlib.Core.Option
use passalong_server.Error.{Result, ok, err, spins, not_found}
use passalong_server.Ids.{Bytes, ItemId, UploadId}
use passalong_server.Map.{Map, get, contains_key, insert, remove, keys, values}
use passalong_server.Map.Order.{nat_ord, text_ord}
use passalong_server.Shelf.{Envelope, StoredItem, Chunk, ItemShelf}
use passalong_server.Shelf.Pump.{pump}

pub record Shelves : Type 0 where
  pub staging : Map UploadId (Bytes × Option Bytes)
  pub shelved : Map ℕ (Map ItemId (Bytes × Envelope))

abbrev pub empty : Shelves
empty = record { staging = []; shelved = [] }

abbrev pub stored : Bytes × Envelope → StoredItem
stored (content, envelope) = record { size = length content; envelope = envelope }

-- The items of a generation; none if it is not there.
abbrev pub items_of : ℕ → Shelves → Map ItemId (Bytes × Envelope)
items_of generation s = get_or (get generation s.shelved) []

unfoldable pub create_staging : UploadId → Shelves → Result (Unit {0}) × Shelves
create_staging upload s =
    if contains_key upload s.staging
    then (ok tt, s)
    else (ok tt, record s { staging = insert upload ([], none) s.staging })

-- What the staging place holds after `pump`: the bytes and their digest, or nothing on a failure.
abbrev written_as : (Bytes → Bytes) → Bool → Result ℕ × Bytes → Bytes × Option Bytes
written_as sha256 hashed (ok n, bytes) = (bytes, if hashed then some (sha256 bytes) else none)
written_as sha256 hashed (err e, bytes) = ([], none)
written_as sha256 hashed (spins, bytes) = ([], none)

unfoldable pub write :
    (Bytes → Bytes) → UploadId → List Chunk → ℕ → Bool → Shelves → Result ℕ × Shelves
write sha256 upload content announced hashed s =
    if contains_key upload s.staging
    then (let written = pump content announced 0 [] in
        (
          written.0,
          record s { staging = insert upload (written_as sha256 hashed written) s.staging },
        ))
    else (err not_found, s)

unfoldable pub publish_staged : UploadId → ℕ → ItemId → Envelope → Shelves → Result Bool × Shelves
publish_staged upload generation id envelope s = elim (get upload s.staging) [
  | none ↦ (err not_found, s)
  | some (content, _) ↦ if contains_key id (items_of generation s) then (ok false, s) else (
    ok true,
    record {
      staging = remove upload s.staging;
      shelved = insert generation (insert id (content, envelope) (items_of generation s)) s.shelved;
    },
  )
]

unfoldable pub remove_item : ℕ → ItemId → Shelves → Result (Option StoredItem) × Shelves
remove_item generation id s = elim (get generation s.shelved) [
  | none ↦ (ok none, s)
  | some items ↦ (
    ok (Option.map stored (get id items)),
    record s { shelved = insert generation (remove id items) s.shelved },
  )
]

abbrev holds_any : ℕ × Map ItemId (Bytes × Envelope) → Bool
holds_any (_, items) = not (length items == 0)

abbrev content_bytes : Map ItemId (Bytes × Envelope) → ℕ
content_bytes items = sum (map (λ e. length e.0) (values items))

-- `impl ItemShelf for MemoryShelf`.
abbrev pub memory_shelf : (Bytes → Bytes) → ItemShelf
memory_shelf sha256 = record {
  State = Shelves;
  stage_create = create_staging;
  stage_write = λ upload content announced. write sha256 upload content announced false;
  stage_write_hashed = λ upload content announced. write sha256 upload content announced true;
  stage_digest = λ upload s. ok (Option.bind (get upload s.staging) (λ e. e.1));
  stage_size = λ upload s. ok (Option.map (λ e. length e.0) (get upload s.staging));
  stage_remove = λ upload s. (ok tt, record s { staging = remove upload s.staging });
  staged = λ s. ok (keys s.staging);
  publish = publish_staged;
  fetch = λ generation id s. ok (Option.map stored (get id (items_of generation s)));
  open_content_from = λ generation id offset s.
      ok (Option.map (λ e. drop offset e.0) (get id (items_of generation s)));
  ids = λ generation s. ok (reverse (keys (items_of generation s)));
  remove = remove_item;
  drop_generation = λ generation s. (ok tt, record s { shelved = remove generation s.shelved });
  generations = λ s. ok (keys (filter holds_any s.shelved));
  bytes = λ generation s. ok (content_bytes (items_of generation s));
}

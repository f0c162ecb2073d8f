-- ===== src/Shelf/Laws.antt =====
-- What the rules rely on of a shelf, as crates/passalong-server-core/src/shelf/mod.rs documents it,
-- about the bytes that each generation holds: staging touches none; a step that fails, or finds
-- nothing to do, changes none; a publish adds the staged bytes; a removal takes the item's away.
use passalong_server.Base.{ℕ, ◌+◌, ◌≡◌, ◌≢◌, Bool, List, Option, none, some}
use passalong_server.Error.{Result, ok}
use passalong_server.Ids.{ItemId, UploadId, content_key}
use passalong_server.Shelf.{ItemShelf, Envelope, StoredItem, Chunk}
use passalong_server.Views.{find_in}

-- Two states hold as many bytes in every generation.
abbrev pub SameBytes : {S : Type 0} → (ℕ → S → ℕ) → S → S → Type 0
SameBytes count s t = (g : ℕ) → count g t ≡ count g s

-- A step that adds to or takes from the generation `g` alone.
abbrev pub Only : {S : Type 0} → (ℕ → S → ℕ) → ℕ → S → S → Type 0
Only count g s t = (h : ℕ) → h ≢ g → count h t ≡ count h s

-- What a removal, or a publish, leaves of the bytes of its generation.
abbrev pub Taken : ℕ → ℕ → Result (Option StoredItem) → Type 0
Taken before now (ok (some item)) = now + item.size ≡ before
Taken before now _ = now ≡ before

abbrev pub Added : ℕ → ℕ → ℕ → Result Bool → Type 0
Added before size now (ok made) = now ≡ before + size
Added before size now _ = now ≡ before

pub record ShelfLaws (sh : ItemShelf) : Type 0 where
  pub count : ℕ → sh.State → ℕ
  pub bytes_count : (g : ℕ) (s : sh.State) (n : ℕ) → sh.bytes g s ≡ ok n → n ≡ count g s
  pub create_same : (u : UploadId) (s : sh.State) → SameBytes count s (sh.stage_create u s).1
  pub write_same :
      (u : UploadId) (c : List Chunk) (n : ℕ) (s : sh.State)
      → SameBytes count s (sh.stage_write u c n s).1
  pub write_hashed_same :
      (u : UploadId) (c : List Chunk) (n : ℕ) (s : sh.State)
      → SameBytes count s (sh.stage_write_hashed u c n s).1
  pub unstage_same : (u : UploadId) (s : sh.State) → SameBytes count s (sh.stage_remove u s).1
  -- Where a generation holds no item of that content key, nothing stands in the way of a publish.
  pub publish_added :
      (u : UploadId) (g : ℕ) (id : ItemId) (e : Envelope) (s : sh.State) (n : ℕ)
      → sh.stage_size u s ≡ ok (some n)
      → find_in sh g (content_key id) s ≡ ok none
      → Added (count g s) n (count g (sh.publish u g id e s).1) (sh.publish u g id e s).0
  pub publish_only :
      (u : UploadId) (g : ℕ) (id : ItemId) (e : Envelope) (s : sh.State)
      → Only count g s (sh.publish u g id e s).1
  pub remove_taken :
      (g : ℕ) (id : ItemId) (s : sh.State)
      → Taken (count g s) (count g (sh.remove g id s).1) (sh.remove g id s).0
  pub remove_only : (g : ℕ) (id : ItemId) (s : sh.State) → Only count g s (sh.remove g id s).1
  pub drop_only : (g : ℕ) (s : sh.State) → Only count g s (sh.drop_generation g s).1

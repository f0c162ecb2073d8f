-- ===== src/Shelf.antt =====
-- crates/passalong-server-core/src/shelf/mod.rs: what the rules need of the storage of items, as an
-- interface, and `pump`, which reads content to its end. A shelf's methods take `&self` and change
-- what lies behind it, so each takes the shelf's state and returns it; those that only look do not.
pub mod Memory
pub mod Pump
pub mod Laws
use passalong_server.Base.{ℕ, Bool, List, Option}
use passalong_server.Error.{Result}
use passalong_server.Ids.{Bytes, Text, ItemId, KeyId, UploadId}

pub record Envelope : Type 0 where
  pub meta : Bytes
  pub under : Option KeyId
  pub received_at : ℕ

pub record StoredItem : Type 0 where
  pub size : ℕ
  pub envelope : Envelope

-- What one call of `Read::read` gives, up to the end of the stream: some bytes, an interruption, or
-- a failure. Where the list ends, `read` answers 0 bytes.
pub data Chunk : Type 0 where
  piece : Bytes → Chunk
  interrupted failed : Chunk

-- A shared shelf (`Arc<S>`) passes every call on, and is the same shelf.
pub record ItemShelf : Type 1 where
  pub State : Type 0
  pub stage_create : UploadId → State → Result (Unit {0}) × State
  pub stage_write : UploadId → List Chunk → ℕ → State → Result ℕ × State
  pub stage_write_hashed : UploadId → List Chunk → ℕ → State → Result ℕ × State
  pub stage_digest : UploadId → State → Result (Option Bytes)
  pub stage_size : UploadId → State → Result (Option ℕ)
  pub stage_remove : UploadId → State → Result (Unit {0}) × State
  pub staged : State → Result (List UploadId)
  pub publish : UploadId → ℕ → ItemId → Envelope → State → Result Bool × State
  pub fetch : ℕ → ItemId → State → Result (Option StoredItem)
  pub open_content_from : ℕ → ItemId → ℕ → State → Result (Option Bytes)
  pub ids : ℕ → State → Result (List ItemId)
  pub remove : ℕ → ItemId → State → Result (Option StoredItem) × State
  pub drop_generation : ℕ → State → Result (Unit {0}) × State
  pub generations : State → Result (List ℕ)
  pub bytes : ℕ → State → Result ℕ

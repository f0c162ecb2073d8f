-- ===== src/Workspace.antt =====
-- The operations of crates/passalong-server-core/src/workspace.rs that change the record: deleting
-- an item, and the changes of encryption that re-encrypt nothing.
pub mod WellFormed
pub mod Cleanups
use passalong_server.Base.{
  ℕ, ◌+◌, ◌-◌, Bool, true, false, List, [], ◌∷◌, Option, none, some, ite, bytes_of,
}
use passalong_server.Error.{
  Result, ok, err, or_fail, key_id_mismatch, rewrite_in_progress, not_found, invalid_request,
}
use passalong_server.Ids.{Bytes, ItemId, KeyId, Text-discrete}
use passalong_server.Map
use passalong_server.Map.Order.{nat_ord}
use passalong_server.Record.{
  Caller, Partition, EncryptionStatus, settled, rewriting, WorkspaceRecord, EncryptionView,
}
use passalong_server.Rules.{M, ◌>>=◌, ◌>>◌, pure, refuse, lift, asks, looks, on_shelf, update}
use passalong_server.Shelf.{ItemShelf, StoredItem}
use passalong_server.Views.{must_write, check_writable, generation_of, booked, encryption}

-- `used` of the generation, less the item's size, and not below 0.
abbrev pub less_used : ℕ → ℕ → WorkspaceRecord → WorkspaceRecord
less_used generation bytes rec = record rec {
  used = Map.insert generation (booked rec generation - bytes) rec.used;
}

-- Already sealed under that key, or plaintext and free to be sealed.
abbrev settle_in : EncryptionStatus → KeyId → Result Bool
settle_in (rewriting session) key_id = err rewrite_in_progress
settle_in (settled none) key_id = ok false
settle_in (settled (some seal)) key_id =
    ite (Text-discrete seal.key_id key_id) (ok true) (err key_id_mismatch)

-- `replaceHeader`'s choice: the seal with its new header.
abbrev pub reheader : EncryptionStatus → KeyId → Bytes → Result EncryptionStatus
reheader (rewriting session) expected header = err rewrite_in_progress
reheader (settled none) expected header =
    err (invalid_request (bytes_of "the workspace is not encrypted"))
reheader (settled (some seal)) expected header =
    ite (Text-discrete seal.key_id expected)
      (ok (settled (some (record { key_id = seal.key_id; header = header })))) (err key_id_mismatch)

abbrev pub sealed_under : KeyId → Bytes → WorkspaceRecord → WorkspaceRecord
sealed_under key_id header rec = record rec {
  state = settled (some (record { key_id = key_id; header = header }));
}

-- What `freshStart` does with the items: they become the plain partition.
abbrev pub set_aside : WorkspaceRecord → WorkspaceRecord
set_aside rec = record rec {
  plain = some rec.generation;
  generation = rec.next_generation;
  next_generation = rec.next_generation + 1;
}

module _ (sh : ItemShelf) where
  -- The answer of the operations that change the encryption.
  abbrev pub report : M sh.State EncryptionView
  report r = (encryption sh r.rec r.shelf, r)

  -- The rest of a deletion: the removed item's bytes leave the books.
  unfoldable pub take_from_books : ℕ → Option StoredItem → M sh.State StoredItem
  take_from_books generation removed = do
    item ← lift (or_fail not_found removed)
    update (less_used generation item.size)
    pure item

  unfoldable pub delete_item : Caller → Partition → ItemId → Option KeyId → M sh.State StoredItem
  unfolding must_write check_writable take_from_books
  delete_item caller partition id expected = do
    lift (must_write caller)
    asks (λ rec. check_writable rec expected)
    generation ← asks (λ rec. or_fail not_found (generation_of rec partition))
    removed ← on_shelf (sh.remove generation id)
    take_from_books generation removed

  unfoldable pub settle : Caller → KeyId → M sh.State Bool
  unfolding must_write
  settle caller key_id = do lift (must_write caller); asks (λ rec. settle_in rec.state key_id)

  -- Refused while the workspace holds items.
  unfoldable pub seal_empty : KeyId → Bytes → List ItemId → M sh.State EncryptionView
  seal_empty key_id header [] = do update (sealed_under key_id header); report
  seal_empty key_id header (id ∷ ids) =
      refuse (invalid_request (bytes_of "the workspace holds items; use a fresh start or migrate"))

  unfoldable pub enable_unsealed : KeyId → Bytes → Bool → M sh.State EncryptionView
  unfolding seal_empty
  enable_unsealed key_id header true = report
  enable_unsealed key_id header false = do
    ids ← λ r. looks (sh.ids r.rec.generation) r
    seal_empty key_id header ids

  unfoldable pub enable_encryption : Caller → KeyId → Bytes → M sh.State EncryptionView
  unfolding settle enable_unsealed
  enable_encryption caller key_id header = do
    done ← settle caller key_id
    enable_unsealed key_id header done

  unfoldable pub seal_fresh : KeyId → Bytes → List ItemId → M sh.State EncryptionView
  seal_fresh key_id header [] = do update (sealed_under key_id header); report
  seal_fresh key_id header (id ∷ ids) = do
    update set_aside
    update (sealed_under key_id header)
    report

  unfoldable pub start_unsealed : KeyId → Bytes → Bool → M sh.State EncryptionView
  unfolding seal_fresh
  start_unsealed key_id header true = report
  start_unsealed key_id header false = do
    ids ← λ r. looks (sh.ids r.rec.generation) r
    seal_fresh key_id header ids

  unfoldable pub fresh_start : Caller → KeyId → Bytes → M sh.State EncryptionView
  unfolding settle start_unsealed
  fresh_start caller key_id header = do
    done ← settle caller key_id
    start_unsealed key_id header done

  unfoldable pub replace_header : Caller → KeyId → Bytes → M sh.State EncryptionView
  unfolding must_write
  replace_header caller expected header = do
    lift (must_write caller)
    state ← asks (λ rec. reheader rec.state expected header)
    update (λ rec. record rec { state = state })
    report

-- ===== src/Workspace/WellFormed.antt =====
-- The operations of Workspace keep a record well formed, whatever they answer.
use passalong_server.Base.{ℕ, ◌-◌, Option, arith}
use passalong_server.Ids.{ItemId, KeyId, Bytes}
use passalong_server.Map.Order.{nat_ord, text_ord}
use passalong_server.Map.Sorted.{insert-IsSorted}
use passalong_server.Record.{Caller, Partition, WorkspaceRecord}
use passalong_server.Record.Generations.{IsWellFormed}
use passalong_server.Rules.{Rules, and_then}
use passalong_server.Shelf.{ItemShelf}
use passalong_server.Workspace.{
  delete_item, enable_encryption, fresh_start, replace_header, less_used,
}
use passalong_server.Views.{booked}

less_used-IsWellFormed :
    (g n : ℕ) (rec : WorkspaceRecord) → IsWellFormed rec → IsWellFormed (less_used g n rec)
less_used-IsWellFormed g n rec w = record {
  below = w.below;
  plain = w.plain;
  staged = w.staged;
  tickets = w.tickets;
  tombstones = w.tombstones;
  used = insert-IsSorted g (booked rec g - n) rec.used w.used;
}

module _ (sh : ItemShelf) (caller : Caller) (r : Rules sh.State) (w : IsWellFormed r.rec) where
  pub delete_item-IsWellFormed :
      (partition : Partition) (id : ItemId) (expected : Option KeyId)
      → IsWellFormed (delete_item sh caller partition id expected r).1.rec
  unfolding delete_item and_then
  delete_item-IsWellFormed partition id expected = grind (arith, less_used-IsWellFormed)

  pub enable_encryption-IsWellFormed :
      (key_id : KeyId) (header : Bytes)
      → IsWellFormed (enable_encryption sh caller key_id header r).1.rec
  unfolding enable_encryption and_then
  enable_encryption-IsWellFormed key_id header = ground arith

  pub fresh_start-IsWellFormed :
      (key_id : KeyId) (header : Bytes) → IsWellFormed (fresh_start sh caller key_id header r).1.rec
  unfolding fresh_start and_then
  fresh_start-IsWellFormed key_id header = ground arith

  pub replace_header-IsWellFormed :
      (key_id : KeyId) (header : Bytes)
      → IsWellFormed (replace_header sh caller key_id header r).1.rec
  unfolding replace_header and_then
  replace_header-IsWellFormed key_id header = ground arith

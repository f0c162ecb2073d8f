-- ===== src/Workspace/Cleanups.antt =====
-- The operations of Workspace, and those that open or keep a rewrite, ask for no removal.
use passalong_server.Base.{◌≡◌, Option, arith}
use passalong_server.Ids.{ItemId, KeyId, Bytes}
use passalong_server.Record.{Caller, Partition}
use passalong_server.Rules.{Rules, and_then}
use passalong_server.Shelf.{ItemShelf}
use passalong_server.Workspace.{delete_item, enable_encryption, fresh_start, replace_header}

module _ (sh : ItemShelf) (caller : Caller) (r : Rules sh.State) where
  pub delete_item-after :
      (partition : Partition) (id : ItemId) (expected : Option KeyId)
      → (delete_item sh caller partition id expected r).1.after ≡ r.after
  unfolding delete_item and_then
  delete_item-after partition id expected = ground arith

  pub enable_encryption-after :
      (key : KeyId) (header : Bytes) → (enable_encryption sh caller key header r).1.after ≡ r.after
  unfolding enable_encryption and_then
  enable_encryption-after key header = ground arith

  pub fresh_start-after :
      (key : KeyId) (header : Bytes) → (fresh_start sh caller key header r).1.after ≡ r.after
  unfolding fresh_start and_then
  fresh_start-after key header = ground arith

  pub replace_header-after :
      (key : KeyId) (header : Bytes) → (replace_header sh caller key header r).1.after ≡ r.after
  unfolding replace_header and_then
  replace_header-after key header = ground arith

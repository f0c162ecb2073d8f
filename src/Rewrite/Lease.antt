-- ===== src/Rewrite/Lease.antt =====
-- The operations that open a rewrite or keep its lease.
use passalong_server.Base.{◌≡◌, arith}
use passalong_server.Record.{Caller, RewriteRequest}
use passalong_server.Rewrite.{begin_rewrite, heartbeat_rewrite, take_over_rewrite}
use passalong_server.Rules.{Env, Rules, and_then}
use passalong_server.Shelf.{ItemShelf}

module _ (sh : ItemShelf) (env : Env) (caller : Caller) (r : Rules sh.State) where
  pub begin_rewrite-after :
      (request : RewriteRequest) → (begin_rewrite sh env caller request r).1.after ≡ r.after
  unfolding begin_rewrite and_then
  begin_rewrite-after request = ground arith

  pub heartbeat_rewrite-after : (heartbeat_rewrite sh env caller r).1.after ≡ r.after
  unfolding heartbeat_rewrite and_then
  heartbeat_rewrite-after = ground arith

  pub take_over_rewrite-after : (take_over_rewrite sh env caller r).1.after ≡ r.after
  unfolding take_over_rewrite and_then
  take_over_rewrite-after = ground arith

-- ===== src/Api/Cleanups.antt =====
-- No operation asks for the removal of anything that the record it leaves still points to.
use passalong_server.Api.{
  Change, deletes, enables, freshens, replaces, begins_upload, commits_upload, aborts_upload,
  begins_rewrite, heartbeats, takes_over, commits_rewrite, aborts_rewrite, operator_aborts, cleans,
  repairs, rule_of,
}
use passalong_server.Base.{◌≡◌, ◌∙◌, []}
use passalong_server.Error.{Result, ok}
use passalong_server.Record.Cleanups.{AsksSafely}
use passalong_server.Record.Generations.{IsWellFormed}
use passalong_server.Rewrite.Cleanups.{
  commit_rewrite-AsksSafely, abort_rewrite-AsksSafely, operator_abort_rewrite-AsksSafely,
}
use passalong_server.Rewrite.Lease.{
  begin_rewrite-after, heartbeat_rewrite-after, take_over_rewrite-after,
}
use passalong_server.Rules.{Env, Rules, and_then}
use passalong_server.Rules.Keeps.{and_then-keeps}
use passalong_server.Shelf.{ItemShelf}
use passalong_server.Upload.Cleanups.{
  AsksSafely-nil, begin_upload-AsksSafely, commit_upload-AsksSafely, abort_upload-AsksSafely,
  clean_staging-AsksSafely, reconcile-AsksSafely,
}
use passalong_server.Workspace.Cleanups.{
  delete_item-after, enable_encryption-after, fresh_start-after, replace_header-after,
}

module _ (sh : ItemShelf) where
  silent-safe :
      {A : Type 0} (x : Result A × Rules sh.State)
      → AsksSafely x.1
      → AsksSafely (and_then x (λ _ r. (ok tt, r))).1
  silent-safe x a = and_then-keeps AsksSafely x _ a λ _ _ q. q

  silent-quiet :
      {A : Type 0} (x : Result A × Rules sh.State)
      → x.1.after ≡ []
      → AsksSafely (and_then x (λ _ r. (ok tt, r))).1
  silent-quiet x e = silent-safe x (AsksSafely-nil x.1 e)

  -- Whatever operation runs on a well-formed record, at whatever time and with whatever answers of
  -- the shelf: each generation that it asks to have dropped is none that the record it leaves points
  -- to, and each staging place that it asks to have removed is that of no ticket in it.
  pub rule_of-AsksSafely :
      (env : Env) (c : Change) (r : Rules sh.State)
      → IsWellFormed r.rec
      → r.after ≡ []
      → AsksSafely (rule_of sh env c r).1
  unfolding rule_of
  rule_of-AsksSafely env (deletes caller p id k) r w e =
      silent-quiet _ (delete_item-after sh caller r p id k ∙ e)
  rule_of-AsksSafely env (enables caller k h) r w e =
      silent-quiet _ (enable_encryption-after sh caller r k h ∙ e)
  rule_of-AsksSafely env (freshens caller k h) r w e =
      silent-quiet _ (fresh_start-after sh caller r k h ∙ e)
  rule_of-AsksSafely env (replaces caller k h) r w e =
      silent-quiet _ (replace_header-after sh caller r k h ∙ e)
  rule_of-AsksSafely env (begins_upload caller q) r w e =
      silent-safe _ (begin_upload-AsksSafely sh env caller q r w.tickets e)
  rule_of-AsksSafely env (commits_upload caller u) r w e =
      silent-safe _ (commit_upload-AsksSafely sh env caller u r w.tickets e)
  rule_of-AsksSafely env (aborts_upload caller u) r w e =
      abort_upload-AsksSafely caller u r w.tickets (AsksSafely-nil r e)
  rule_of-AsksSafely env (begins_rewrite caller q) r w e =
      silent-quiet _ (begin_rewrite-after sh env caller r q ∙ e)
  rule_of-AsksSafely env (heartbeats caller) r w e =
      silent-quiet _ (heartbeat_rewrite-after sh env caller r ∙ e)
  rule_of-AsksSafely env (takes_over caller) r w e =
      silent-quiet _ (take_over_rewrite-after sh env caller r ∙ e)
  rule_of-AsksSafely env (commits_rewrite caller k) r w e =
      silent-safe _ (commit_rewrite-AsksSafely sh r w e caller k)
  rule_of-AsksSafely env (aborts_rewrite caller k) r w e =
      silent-safe _ (abort_rewrite-AsksSafely sh r w e caller k)
  rule_of-AsksSafely env (operator_aborts f) r w e =
      silent-safe _ (operator_abort_rewrite-AsksSafely sh r w e env f)
  rule_of-AsksSafely env cleans r w e = silent-safe _ (clean_staging-AsksSafely sh env r e)
  rule_of-AsksSafely env repairs r w e = reconcile-AsksSafely sh env r e

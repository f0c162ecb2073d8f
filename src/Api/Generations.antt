-- ===== src/Api/Generations.antt =====
-- After any run of the server, the generations that a workspace's record points to are distinct and
-- below the next one, so that none is ever given out twice.
use passalong_server.Api.{
  Change, Request, deletes, enables, freshens, replaces, begins_upload, commits_upload,
  aborts_upload, begins_rewrite, heartbeats, takes_over, commits_rewrite, aborts_rewrite,
  operator_aborts, cleans, repairs, changes, puts, probes, rule_of, serve, run,
}
use passalong_server.Base.{◌≡◌, List, [], ◌∷◌, some}
use passalong_server.Engine.{Engine, create, open_engine}
use passalong_server.Engine.Transactions.{Holds, write-Holds, read-Holds}
use passalong_server.Upload.Begin.{probe_write}
use passalong_server.Upload.Commit.{put_upload_content}
use passalong_server.Upload.Janitor.{reconcile}
use passalong_server.Error.{Result, ok}
use passalong_server.Ids.{WorkspaceId}
use passalong_server.Map
use passalong_server.Map.Laws.{get-insert_self}
use passalong_server.Map.Order.{text_ord}
use passalong_server.Record.{WorkspaceRecord, new_record}
use passalong_server.Record.Generations.{IsWellFormed, new_record-IsWellFormed}
use passalong_server.Rewrite.WellFormed.{
  begin_rewrite-IsWellFormed, heartbeat_rewrite-IsWellFormed, take_over_rewrite-IsWellFormed,
  commit_rewrite-IsWellFormed, abort_rewrite-IsWellFormed, operator_abort_rewrite-IsWellFormed,
}
use passalong_server.Rules.{Env, Rules, and_then}
use passalong_server.Rules.Keeps.{and_then-keeps}
use passalong_server.Shelf.{ItemShelf}
use passalong_server.Upload.WellFormed.{
  begin_upload-IsWellFormed, commit_upload-IsWellFormed, abort_upload-IsWellFormed,
  clean_staging-IsWellFormed, reconcile-IsWellFormed,
}
use passalong_server.Workspace.WellFormed.{
  delete_item-IsWellFormed, enable_encryption-IsWellFormed, fresh_start-IsWellFormed,
  replace_header-IsWellFormed,
}

module _ (sh : ItemShelf) where
  abbrev P : Rules sh.State → Type 0
  P r = IsWellFormed r.rec

  silent-keeps :
      {A : Type 0} (x : Result A × Rules sh.State) → P x.1 → P (and_then x (λ _ r. (ok tt, r))).1
  silent-keeps x p = and_then-keeps P x _ p λ _ _ q. q

  -- Every operation keeps the record of its workspace well formed, on every path that it takes.
  pub rule_of-IsWellFormed :
      (env : Env) (c : Change) (r : Rules sh.State)
      → IsWellFormed r.rec
      → IsWellFormed (rule_of sh env c r).1.rec
  unfolding rule_of
  rule_of-IsWellFormed env (deletes caller p id k) r w =
      silent-keeps _ (delete_item-IsWellFormed sh caller r w p id k)
  rule_of-IsWellFormed env (enables caller k h) r w =
      silent-keeps _ (enable_encryption-IsWellFormed sh caller r w k h)
  rule_of-IsWellFormed env (freshens caller k h) r w =
      silent-keeps _ (fresh_start-IsWellFormed sh caller r w k h)
  rule_of-IsWellFormed env (replaces caller k h) r w =
      silent-keeps _ (replace_header-IsWellFormed sh caller r w k h)
  rule_of-IsWellFormed env (begins_upload caller q) r w =
      silent-keeps _ (begin_upload-IsWellFormed sh env caller q r w)
  rule_of-IsWellFormed env (commits_upload caller u) r w =
      silent-keeps _ (commit_upload-IsWellFormed sh env caller u r w)
  rule_of-IsWellFormed env (aborts_upload caller u) r w = abort_upload-IsWellFormed caller u r w
  rule_of-IsWellFormed env (begins_rewrite caller q) r w =
      silent-keeps _ (begin_rewrite-IsWellFormed sh env caller r w q)
  rule_of-IsWellFormed env (heartbeats caller) r w =
      silent-keeps _ (heartbeat_rewrite-IsWellFormed sh env caller r w)
  rule_of-IsWellFormed env (takes_over caller) r w =
      silent-keeps _ (take_over_rewrite-IsWellFormed sh env caller r w)
  rule_of-IsWellFormed env (commits_rewrite caller k) r w =
      silent-keeps _ (commit_rewrite-IsWellFormed sh caller r w k)
  rule_of-IsWellFormed env (aborts_rewrite caller k) r w =
      silent-keeps _ (abort_rewrite-IsWellFormed sh caller r w k)
  rule_of-IsWellFormed env (operator_aborts f) r w =
      silent-keeps _ (operator_abort_rewrite-IsWellFormed sh env f r w)
  rule_of-IsWellFormed env cleans r w = silent-keeps _ (clean_staging-IsWellFormed sh env r w)
  rule_of-IsWellFormed env repairs r w = reconcile-IsWellFormed sh env r w

  pub serve-IsWellFormed :
      (e : Engine sh.State) (q : Env × Request)
      → Holds IsWellFormed e.workspace e.ledger
      → Holds IsWellFormed (serve sh e q).workspace (serve sh e q).ledger
  unfolding serve
  serve-IsWellFormed e (env, changes c) h =
      write-Holds sh IsWellFormed (rule_of sh env c) e (rule_of-IsWellFormed env c) h
  serve-IsWellFormed e (env, puts caller u content) h =
      read-Holds sh IsWellFormed (put_upload_content sh env caller u content) e h
  serve-IsWellFormed e (env, probes caller) h =
      read-Holds sh IsWellFormed (probe_write sh env caller) e h

  run-Holds :
      (e : Engine sh.State) (qs : List (Env × Request))
      → Holds IsWellFormed e.workspace e.ledger
      → Holds IsWellFormed (run sh e qs).workspace (run sh e qs).ledger
  unfolding run
  run-Holds e [] h = h
  run-Holds e (q ∷ qs) h = run-Holds (serve sh e q) qs (serve-IsWellFormed e q h)

  create-Holds : (ws : WorkspaceId) → Holds IsWellFormed ws (create ws [])
  unfolding create Map.get Map.insert
  create-Holds ws = (new_record, get-insert_self ws new_record [], new_record-IsWellFormed)

  -- After any requests, at any times and with any refusals, a workspace that was opened anew still
  -- has a record, and in it the generations of the items, of the plain partition and of the staged
  -- items are three different ones, all of them below the next generation to be given out.
  pub run-IsWellFormed :
      (env : Env) (s : sh.State) (ws : WorkspaceId) (qs : List (Env × Request))
      → let e = run sh (open_engine sh env s [] ws).1 qs in
        (rec : WorkspaceRecord) × (Map.get e.workspace e.ledger ≡ some rec) × IsWellFormed rec
  unfolding open_engine
  run-IsWellFormed env s ws qs = run-Holds _ qs (
      write-Holds sh IsWellFormed (reconcile sh env) _ (reconcile-IsWellFormed sh env)
        (create-Holds ws))

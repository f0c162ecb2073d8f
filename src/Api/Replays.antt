-- ===== src/Api/Replays.antt =====
-- A commit is answered again: a run of the server between an upload's first commit and a repeated one.
use passalong_server.Api.{Request, run}
use passalong_server.Api.Keeping.{run-keeps}
use passalong_server.Base.{ℕ, ◌+◌, ◌<◌, ◌≡◌, List, [], ◌∷◌, none, some, All}
use passalong_server.Engine.{Engine, write}
use passalong_server.Engine.Transactions.{start, Unmoved, write-answered, write-Unmoved}
use passalong_server.Error.{ok}
use passalong_server.Ids.{UploadId}
use passalong_server.Map
use passalong_server.Map.Order.{text_ord}
use passalong_server.Record.{Caller, PutOutcome, WorkspaceRecord}
use passalong_server.Record.Generations.{IsWellFormed}
use passalong_server.Rules.{Env}
use passalong_server.Rules.Post.{Post-holds}
use passalong_server.Shelf.{ItemShelf}
use passalong_server.Upload.{tombstone}
use passalong_server.Upload.Commit.{commit_upload}
use passalong_server.Upload.Keeping.{IsClosed}
use passalong_server.Upload.Replay.{
  Stands, first_commit-Stands, commit_upload-Stands, Stands-IsClosed,
}

module _ (sh : ItemShelf) (env : Env) (caller : Caller) (upload : UploadId) where
  -- What the first commit of an upload answered, a commit of it by the same caller answers again, at
  -- any time before the first one's time plus `staging_secs` and after any requests of anybody that
  -- were served before then, clean-ups and repairs among them; and the repeated commit changes
  -- neither the record nor the shelf. The record that the first commit meets is well formed and
  -- keeps no earlier outcome of the upload.
  pub commit_upload-replay :
      (e : Engine sh.State) (rec : WorkspaceRecord) (o : PutOutcome) (qs : List (Env × Request))
      (later : Env)
      → Map.get e.workspace e.ledger ≡ some rec
      → IsWellFormed rec
      → tombstone rec env.now caller upload ≡ none
      → (write sh (commit_upload sh env caller upload) e).0 ≡ ok o
      → All (λ q. q.0.now < env.now + env.limits.staging_secs) qs
      → later.now < env.now + env.limits.staging_secs
      → let then = run sh (write sh (commit_upload sh env caller upload) e).1 qs in
        Unmoved sh then (ok o) (write sh (commit_upload sh later caller upload) then)
  commit_upload-replay e rec o qs later h w first answered served soon =
      let stood =
        write-answered sh (Stands upload caller.key until o) (commit_upload sh env caller upload) e
          rec o h answered
          (λ done.
            Post-holds (λ o r. Stands upload caller.key until o r.rec) _ o done
              (first_commit-Stands sh env caller upload (start e rec) w.tickets first)) in
      let then = run sh (write sh (commit_upload sh env caller upload) e).1 qs in
      let (kept, found, stands) =
        run-keeps sh (Stands upload caller.key until o) _ qs (closed qs served) stood in
      write-Unmoved sh _ _ kept (ok o) found
        (commit_upload-Stands sh later caller upload (start then kept) o until stands soon)
    where
      until : ℕ
      until = env.now + env.limits.staging_secs

      closed :
          (qs : List (Env × Request))
          → All (λ q. q.0.now < until) qs
          → All (λ q. IsClosed q.0.now (Stands upload caller.key until o)) qs
      closed [] s = tt
      closed (q ∷ qs) s = (Stands-IsClosed upload caller.key until o q.0.now s.0, closed qs s.1)

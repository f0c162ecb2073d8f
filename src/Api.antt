-- ===== src/Api.antt =====
-- The API's operations as data, and a server's run as a sequence of them: each is `Engine::write` or
-- `Engine::read` of its rule (crates/passalong-server-core/src/workspace.rs). Every request is made
-- at its own time, with whatever the random source gives then.
pub mod Generations
pub mod Keeping
pub mod Replays
pub mod Endings
pub mod Cleanups
pub mod Roles
use passalong_server.Base.{ℕ, Bool, List, [], ◌∷◌, Option}
use passalong_server.Engine.{Engine, write, read}
use passalong_server.Ids.{Bytes, ItemId, KeyId, UploadId}
use passalong_server.Record.{Caller, Partition, UploadRequest, RewriteRequest}
use passalong_server.Rewrite.{
  begin_rewrite, heartbeat_rewrite, take_over_rewrite, commit_rewrite, abort_rewrite,
  operator_abort_rewrite,
}
use passalong_server.Rules.{M, Env, Rules, and_then, ◌>>◌, pure}
use passalong_server.Shelf.{ItemShelf, Chunk}
use passalong_server.Upload.Begin.{begin_upload, probe_write}
use passalong_server.Upload.Commit.{put_upload_content, commit_upload}
use passalong_server.Upload.Janitor.{abort_upload, clean_staging, reconcile}
use passalong_server.Workspace.{delete_item, enable_encryption, fresh_start, replace_header}

-- The operations that run in a transaction, and those that work on a copy of the record.
pub data Change : Type 0 where
  deletes : Caller → Partition → ItemId → Option KeyId → Change
  enables freshens replaces : Caller → KeyId → Bytes → Change
  begins_upload : Caller → UploadRequest → Change
  commits_upload aborts_upload : Caller → UploadId → Change
  begins_rewrite : Caller → RewriteRequest → Change
  heartbeats takes_over : Caller → Change
  commits_rewrite aborts_rewrite : Caller → KeyId → Change
  operator_aborts : Bool → Change
  cleans repairs : Change

pub data Request : Type 0 where
  changes : Change → Request
  puts : Caller → UploadId → List Chunk → Request
  probes : Caller → Request

module _ (sh : ItemShelf) where
  -- An operation whose answer is not looked at.
  abbrev pub silent : {A : Type 0} → M sh.State A → M sh.State (Unit {0})
  silent m = m >> pure tt

  unfoldable pub rule_of : Env → Change → M sh.State (Unit {0})
  rule_of env (deletes caller partition id expected) =
      silent (delete_item sh caller partition id expected)
  rule_of env (enables caller key header) = silent (enable_encryption sh caller key header)
  rule_of env (freshens caller key header) = silent (fresh_start sh caller key header)
  rule_of env (replaces caller key header) = silent (replace_header sh caller key header)
  rule_of env (begins_upload caller request) = silent (begin_upload sh env caller request)
  rule_of env (commits_upload caller upload) = silent (commit_upload sh env caller upload)
  rule_of env (aborts_upload caller upload) = abort_upload caller upload
  rule_of env (begins_rewrite caller request) = silent (begin_rewrite sh env caller request)
  rule_of env (heartbeats caller) = silent (heartbeat_rewrite sh env caller)
  rule_of env (takes_over caller) = silent (take_over_rewrite sh env caller)
  rule_of env (commits_rewrite caller key) = silent (commit_rewrite sh caller key)
  rule_of env (aborts_rewrite caller key) = silent (abort_rewrite sh caller key)
  rule_of env (operator_aborts force) = silent (operator_abort_rewrite sh env force)
  rule_of env cleans = silent (clean_staging sh env)
  rule_of env repairs = reconcile sh env

  unfoldable pub serve : Engine sh.State → Env × Request → Engine sh.State
  unfolding write read rule_of put_upload_content probe_write
  serve e (env, changes c) = (write sh (rule_of env c) e).1
  serve e (env, puts caller upload content) =
      (read sh (put_upload_content sh env caller upload content) e).1
  serve e (env, probes caller) = (read sh (probe_write sh env caller) e).1

  unfoldable pub run : Engine sh.State → List (Env × Request) → Engine sh.State
  unfolding serve
  run e [] = e
  run e (q ∷ qs) = run (serve e q) qs

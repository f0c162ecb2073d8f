-- ===== src/Api/Keeping.antt =====
-- What every operation keeps of a record, from what the single changes keep of it, and what a run of
-- the server keeps.
use passalong_server.Api.{
  Change, Request, deletes, enables, freshens, replaces, begins_upload, commits_upload,
  aborts_upload, begins_rewrite, heartbeats, takes_over, commits_rewrite, aborts_rewrite,
  operator_aborts, cleans, repairs, changes, puts, probes, rule_of, serve, run,
}
use passalong_server.Base.{true, false, Bool, Option, some, List, [], ◌∷◌, ◌+◌, All, arith}
use passalong_server.Engine.{Engine}
use passalong_server.Engine.Transactions.{Holds, write-Holds, read-Holds}
use passalong_server.Error.{Result, ok}
use passalong_server.Ids.{ApiKeyId, KeyId, ItemId, Bytes}
use passalong_server.Map
use passalong_server.Map.Order.{nat_ord, text_ord}
use passalong_server.Record.{
  Caller, Partition, RewriteRequest, Seal, WorkspaceRecord, Session, EncryptionStatus, settled,
  rewriting,
}
use passalong_server.Rewrite.{
  renew_lease, begin_settled, commit_session, end_aborted, begin_again, begin_rewrite, switch_over,
  put_back, operator_abort_rewrite, heartbeat_rewrite, take_over_rewrite, commit_open, abort_open,
  begin_in, commit_rewrite, abort_rewrite, report_session, commit_in, abort_in, open_session,
}
use passalong_server.Rules.{Env, Rules, and_then, update}
use passalong_server.Rules.Keeps.{and_then-keeps}
use passalong_server.Shelf.{ItemShelf}
use passalong_server.Upload.Begin.{probe_write}
use passalong_server.Upload.Commit.{put_upload_content}
use passalong_server.Upload.Keeping.{
  IsClosed, drop_rewrite_uploads-keeps, begin_upload-keeps, commit_upload-keeps, abort_upload-keeps,
  clean_staging-keeps, reconcile-keeps,
}
use passalong_server.Workspace.{
  seal_empty, enable_unsealed, settle, take_from_books, seal_fresh, start_unsealed, replace_header,
  delete_item, enable_encryption, fresh_start,
}

module _ (sh : ItemShelf) (env : Env) (P : WorkspaceRecord → Type 0) (c : IsClosed env.now P) where
  abbrev On : Rules sh.State → Type 0
  On r = P r.rec

  delete_item-keeps :
      (caller : Caller) (partition : Partition) (id : ItemId) (k : Option KeyId)
      (r : Rules sh.State)
      → P r.rec
      → P (delete_item sh caller partition id k r).1.rec
  unfolding delete_item take_from_books
  delete_item-keeps caller partition id k r p = and_then-keeps On _ _ p λ _ r₁ p₁.
      and_then-keeps On _ _ p₁ λ _ r₂ p₂. and_then-keeps On _ _ p₂ λ g r₃ p₃.
        and_then-keeps On _ _ p₃ λ removed r₄ p₄.
          and_then-keeps On _ _ p₄
            λ item r₅ p₅. and_then-keeps On _ _ (c.books r₅.rec _ p₅) λ _ r₆ p₆. p₆

  sealed-keeps :
      (k : KeyId) (h : Bytes) (ids : List ItemId) (r : Rules sh.State)
      → P r.rec
      → P (seal_empty sh k h ids r).1.rec × P (seal_fresh sh k h ids r).1.rec
  unfolding seal_empty seal_fresh and_then
  sealed-keeps k h [] r p = (c.states r.rec _ p, c.states r.rec _ p)
  sealed-keeps k h (id ∷ ids) r p = (p, c.states _ _ (c.moves r.rec _ _ _ p))

  enable_unsealed-keeps :
      (k : KeyId) (h : Bytes) (done : Bool) (r : Rules sh.State)
      → P r.rec
      → P (enable_unsealed sh k h done r).1.rec × P (start_unsealed sh k h done r).1.rec
  unfolding enable_unsealed start_unsealed
  enable_unsealed-keeps k h true r p = (p, p)
  enable_unsealed-keeps k h false r p = (
    and_then-keeps On _ _ p λ ids r₁ p₁. (sealed-keeps k h ids r₁ p₁).0,
    and_then-keeps On _ _ p λ ids r₁ p₁. (sealed-keeps k h ids r₁ p₁).1,
  )

  settle-keeps :
      (caller : Caller) (k : KeyId) (r : Rules sh.State) → P r.rec → P (settle sh caller k r).1.rec
  unfolding settle
  settle-keeps caller k r p = and_then-keeps On _ _ p λ _ r₁ p₁. p₁

  replace_header-keeps :
      (caller : Caller) (k : KeyId) (h : Bytes) (r : Rules sh.State)
      → P r.rec
      → P (replace_header sh caller k h r).1.rec
  unfolding replace_header
  replace_header-keeps caller k h r p = and_then-keeps On _ _ p λ _ r₁ p₁.
      and_then-keeps On _ _ p₁
        λ state r₂ p₂. and_then-keeps On _ _ (c.states r₂.rec state p₂) λ _ r₃ p₃. p₃

  renewed-keeps :
      (holder : ApiKeyId) (r : Rules sh.State)
      → P r.rec
      → P (and_then (update (renew_lease env holder) r) (λ _. report_session sh)).1.rec
  unfolding renew_lease
  renewed-keeps holder r p =
      and_then-keeps On _ _ (c.states r.rec _ p) λ _ r₁ p₁. and_then-keeps On _ _ p₁ λ _ r₂ p₂. p₂

  opened-keeps :
      (caller : Caller) (q : RewriteRequest) (prior : Option Seal) (rec : WorkspaceRecord)
      → P rec
      → P (open_session env caller q prior rec)
  opened-keeps caller q prior rec p =
      c.states (record rec { next_generation = rec.next_generation + 1 }) _
        (c.moves rec rec.generation (rec.next_generation + 1) rec.plain p)

  begin_in-keeps :
      (caller : Caller) (q : RewriteRequest) (state : EncryptionStatus) (r : Rules sh.State)
      → P r.rec
      → P (begin_in sh env caller q state r).1.rec
  unfolding begin_settled begin_again
  begin_in-keeps caller q (settled prior) r p = and_then-keeps On _ _ p λ _ r₁ p₁.
      and_then-keeps On _ _ (opened-keeps caller q prior r₁.rec p₁)
        λ _ r₂ p₂. and_then-keeps On _ _ p₂ λ _ r₃ p₃. p₃
  begin_in-keeps caller q (rewriting session) r p = ground (arith, renewed-keeps caller.key r p, p)

  begin_rewrite-keeps :
      (caller : Caller) (q : RewriteRequest) (r : Rules sh.State)
      → P r.rec
      → P (begin_rewrite sh env caller q r).1.rec
  unfolding begin_rewrite
  begin_rewrite-keeps caller q r p =
      and_then-keeps On _ _ p
        λ _ r₁ p₁. and_then-keeps On _ _ p₁ λ state r₂ p₂. begin_in-keeps caller q state r₂ p₂

  leased-keeps :
      (caller : Caller) (r : Rules sh.State)
      → P r.rec
      → P (heartbeat_rewrite sh env caller r).1.rec × P (take_over_rewrite sh env caller r).1.rec
  unfolding heartbeat_rewrite take_over_rewrite
  leased-keeps caller r p = (
    and_then-keeps On _ _ p
        λ _ r₁ p₁. and_then-keeps On _ _ p₁ λ _ r₂ p₂. renewed-keeps caller.key r₂ p₂,
    and_then-keeps On _ _ p
        λ _ r₁ p₁. and_then-keeps On _ _ p₁ λ _ r₂ p₂. renewed-keeps caller.key r₂ p₂,
  )

  switched-keeps : (x : Session) (r : Rules sh.State) → P r.rec → P (switch_over sh x r).1.rec
  unfolding switch_over and_then
  switched-keeps x r p =
      c.states
        (record r.rec {
          generation = x.staged_generation;
          used = Map.remove r.rec.generation r.rec.used;
        })
        (settled (some x.next))
        (c.moves (record r.rec { used = Map.remove r.rec.generation r.rec.used })
          x.staged_generation r.rec.next_generation r.rec.plain
          (c.books r.rec (Map.remove r.rec.generation r.rec.used) p))

  restored-keeps : (x : Session) (r : Rules sh.State) → P r.rec → P (put_back sh x r).1.rec
  unfolding put_back and_then
  restored-keeps x r p =
      c.states
        (record r.rec {
          ended_rewrites = Map.insert x.next.key_id tt r.rec.ended_rewrites;
          used = Map.remove x.staged_generation r.rec.used;
        })
        (settled x.prior)
        (c.books
          (record r.rec { ended_rewrites = Map.insert x.next.key_id tt r.rec.ended_rewrites })
          (Map.remove x.staged_generation r.rec.used) (c.ends r.rec x.next.key_id p))

  commit_session-keeps :
      (x : Session) (r : Rules sh.State) → P r.rec → P (commit_session sh x r).1.rec
  unfolding commit_session
  commit_session-keeps x r p = and_then-keeps On _ _ p λ staged r₁ p₁.
      and_then-keeps On _ _ p₁ λ source r₂ p₂. and_then-keeps On _ _ (ground (arith, p₂)) λ _ r₃ p₃.
        and_then-keeps On _ _ (switched-keeps x r₃ p₃) λ _ r₄ p₄.
          and_then-keeps On _ _ (drop_rewrite_uploads-keeps sh env P c r₄ p₄) λ _ r₅ p₅. p₅

  end_aborted-keeps : (x : Session) (r : Rules sh.State) → P r.rec → P (end_aborted sh x r).1.rec
  unfolding end_aborted
  end_aborted-keeps x r p =
      and_then-keeps On _ _ (restored-keeps x r p)
        λ _ r₁ p₁. and_then-keeps On _ _ (drop_rewrite_uploads-keeps sh env P c r₁ p₁) λ _ r₂ p₂. p₂

  ended-keeps :
      (caller : Caller) (k : KeyId) (r : Rules sh.State)
      → P r.rec
      → P (commit_rewrite sh caller k r).1.rec × P (abort_rewrite sh caller k r).1.rec
  unfolding commit_rewrite abort_rewrite commit_open abort_open
  ended-keeps caller k r p = (
    and_then-keeps On _ _ p
        λ _ r₁ p₁. and_then-keeps On _ _ p₁ λ state r₂ p₂. committed state r₂ p₂,
    and_then-keeps On _ _ p λ _ r₁ p₁. and_then-keeps On _ _ p₁ λ state r₂ p₂. aborted state r₂ p₂,
  )
    where
      committed :
          (state : EncryptionStatus) (q : Rules sh.State)
          → P q.rec
          → P (commit_in sh caller k state q).1.rec
      committed (settled seal) q p = ground (arith, p)
      committed (rewriting x) q p =
          and_then-keeps On _ _ p
            λ _ r₁ p₁. and_then-keeps On _ _ p₁ λ y r₂ p₂. commit_session-keeps y r₂ p₂

      aborted :
          (state : EncryptionStatus) (q : Rules sh.State)
          → P q.rec
          → P (abort_in sh caller k state q).1.rec
      aborted (settled seal) q p = p
      aborted (rewriting x) q p =
          and_then-keeps On _ _ p
            λ _ r₁ p₁. and_then-keeps On _ _ p₁ λ y r₂ p₂. end_aborted-keeps y r₂ p₂

  operator_abort_rewrite-keeps :
      (force : Bool) (r : Rules sh.State)
      → P r.rec
      → P (operator_abort_rewrite sh env force r).1.rec
  unfolding operator_abort_rewrite
  operator_abort_rewrite-keeps force r p =
      and_then-keeps On _ _ p λ x r₁ p₁. end_aborted-keeps x r₁ p₁

  silent-keeps :
      {A : Type 0} (x : Result A × Rules sh.State) → On x.1 → On (and_then x (λ _ r. (ok tt, r))).1
  silent-keeps x p = and_then-keeps On x _ p λ _ _ q. q

  pub rule_of-keeps : (m : Change) (r : Rules sh.State) → P r.rec → P (rule_of sh env m r).1.rec
  unfolding rule_of enable_encryption fresh_start
  rule_of-keeps (deletes caller q id k) r p = silent-keeps _ (delete_item-keeps caller q id k r p)
  rule_of-keeps (enables caller k h) r p = silent-keeps _ (
      and_then-keeps On _ _ (settle-keeps caller k r p)
        λ done r₁ p₁. (enable_unsealed-keeps k h done r₁ p₁).0)
  rule_of-keeps (freshens caller k h) r p = silent-keeps _ (
      and_then-keeps On _ _ (settle-keeps caller k r p)
        λ done r₁ p₁. (enable_unsealed-keeps k h done r₁ p₁).1)
  rule_of-keeps (replaces caller k h) r p = silent-keeps _ (replace_header-keeps caller k h r p)
  rule_of-keeps (begins_upload caller q) r p =
      silent-keeps _ (begin_upload-keeps sh env P c caller q r p)
  rule_of-keeps (commits_upload caller u) r p =
      silent-keeps _ (commit_upload-keeps sh env P c caller u r p)
  rule_of-keeps (aborts_upload caller u) r p = abort_upload-keeps sh env P c caller u r p
  rule_of-keeps (begins_rewrite caller q) r p = silent-keeps _ (begin_rewrite-keeps caller q r p)
  rule_of-keeps (heartbeats caller) r p = silent-keeps _ (leased-keeps caller r p).0
  rule_of-keeps (takes_over caller) r p = silent-keeps _ (leased-keeps caller r p).1
  rule_of-keeps (commits_rewrite caller k) r p = silent-keeps _ (ended-keeps caller k r p).0
  rule_of-keeps (aborts_rewrite caller k) r p = silent-keeps _ (ended-keeps caller k r p).1
  rule_of-keeps (operator_aborts f) r p = silent-keeps _ (operator_abort_rewrite-keeps f r p)
  rule_of-keeps cleans r p = silent-keeps _ (clean_staging-keeps sh env P c r p)
  rule_of-keeps repairs r p = reconcile-keeps sh env P c r p

module _ (sh : ItemShelf) (P : WorkspaceRecord → Type 0) where
  serve-Holds :
      (e : Engine sh.State) (q : Env × Request)
      → IsClosed q.0.now P
      → Holds P e.workspace e.ledger
      → Holds P (serve sh e q).workspace (serve sh e q).ledger
  unfolding serve
  serve-Holds e (env, changes m) c h =
      write-Holds sh P (rule_of sh env m) e (rule_of-keeps sh env P c m) h
  serve-Holds e (env, puts caller u content) c h =
      read-Holds sh P (put_upload_content sh env caller u content) e h
  serve-Holds e (env, probes caller) c h = read-Holds sh P (probe_write sh env caller) e h

  pub run-keeps :
      (e : Engine sh.State) (qs : List (Env × Request))
      → All (λ q. IsClosed q.0.now P) qs
      → Holds P e.workspace e.ledger
      → Holds P (run sh e qs).workspace (run sh e qs).ledger
  unfolding run
  run-keeps e [] c h = h
  run-keeps e (q ∷ qs) c h = run-keeps (serve sh e q) qs c.1 (serve-Holds e q c.0 h)

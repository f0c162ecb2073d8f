-- ===== src/Rewrite/WellFormed.antt =====
-- The operations of Rewrite keep a record well formed, whatever they answer.
use passalong_server.Base.{◌≡◌, Bool, arith}
use passalong_server.Error.{ok}
use passalong_server.Ids.{KeyId}
use passalong_server.Map.Order.{nat_ord, text_ord}
use passalong_server.Map.Sorted.{remove-IsSorted}
use passalong_server.Record.{Caller, Session, RewriteRequest, rewriting, WorkspaceRecord}
use passalong_server.Record.Generations.{IsWellFormed}
use passalong_server.Rewrite.{
  restored, switched, begin_rewrite, heartbeat_rewrite, take_over_rewrite, put_back, switch_over,
  commit_session, commit_rewrite, end_aborted, abort_rewrite, operator_abort_rewrite,
}
use passalong_server.Rules.{Env, Rules, and_then}
use passalong_server.Rules.Keeps.{and_then-keeps, and_then-leads}
use passalong_server.Shelf.{ItemShelf}
use passalong_server.Upload.WellFormed.{drop_rewrite_uploads-IsWellFormed}
use passalong_server.Views.{held_session}

restored-IsWellFormed :
    (s : Session) (rec : WorkspaceRecord) → IsWellFormed rec → IsWellFormed (restored s rec)
restored-IsWellFormed s rec w = ground (arith, remove-IsSorted s.staged_generation rec.used w.used)

switched-IsWellFormed :
    (s : Session) (rec : WorkspaceRecord)
    → rec.state ≡ rewriting s
    → IsWellFormed rec
    → IsWellFormed (switched s rec)
switched-IsWellFormed s rec e w = ground (arith, remove-IsSorted rec.generation rec.used w.used)

-- An open session is the one that its holder is answered with.
pub held_session-eq :
    (rec : WorkspaceRecord) (caller : Caller) (s : Session)
    → held_session rec caller ≡ ok s
    → rec.state ≡ rewriting s
unfolding held_session
held_session-eq rec caller s h = ground arith

module _ (sh : ItemShelf) where
  module _ (env : Env) (caller : Caller) (r : Rules sh.State) (w : IsWellFormed r.rec) where
    pub begin_rewrite-IsWellFormed :
        (request : RewriteRequest) → IsWellFormed (begin_rewrite sh env caller request r).1.rec
    unfolding begin_rewrite and_then
    begin_rewrite-IsWellFormed request = ground arith

    pub heartbeat_rewrite-IsWellFormed : IsWellFormed (heartbeat_rewrite sh env caller r).1.rec
    unfolding heartbeat_rewrite and_then
    heartbeat_rewrite-IsWellFormed = ground arith

    pub take_over_rewrite-IsWellFormed : IsWellFormed (take_over_rewrite sh env caller r).1.rec
    unfolding take_over_rewrite and_then
    take_over_rewrite-IsWellFormed = ground arith

  abbrev P : Rules sh.State → Type 0
  P q = IsWellFormed q.rec

  put_back-IsWellFormed :
      (s : Session) (r : Rules sh.State) → IsWellFormed r.rec → IsWellFormed (put_back sh s r).1.rec
  unfolding put_back and_then
  put_back-IsWellFormed s r w = restored-IsWellFormed s r.rec w

  switch_over-IsWellFormed :
      (s : Session) (r : Rules sh.State)
      → r.rec.state ≡ rewriting s
      → IsWellFormed r.rec
      → IsWellFormed (switch_over sh s r).1.rec
  unfolding switch_over and_then
  switch_over-IsWellFormed s r e w = switched-IsWellFormed s r.rec e w

  end_aborted-IsWellFormed :
      (s : Session) (r : Rules sh.State)
      → IsWellFormed r.rec
      → IsWellFormed (end_aborted sh s r).1.rec
  unfolding end_aborted
  end_aborted-IsWellFormed s r w =
      and_then-keeps P _ _ (put_back-IsWellFormed s r w)
        λ _ r₁ w₁. and_then-keeps P _ _ (drop_rewrite_uploads-IsWellFormed r₁ w₁) λ _ r₂ w₂. w₂

  commit_session-IsWellFormed :
      (s : Session) (r : Rules sh.State)
      → r.rec.state ≡ rewriting s
      → IsWellFormed r.rec
      → IsWellFormed (commit_session sh s r).1.rec
  unfolding commit_session
  commit_session-IsWellFormed s r e w =
      and_then-leads Opens P _ _ (λ _ p. p.1) (e, w)
        λ staged r₁ p₁.
          and_then-leads Opens P _ _ (λ _ p. p.1) p₁
            λ source r₂ p₂.
              and_then-leads Opens P _ _ (λ _ p. p.1) (ground arith)
                λ _ r₃ p₃. and_then-keeps P _ _ (switch_over-IsWellFormed s r₃ p₃.0 p₃.1) λ _ r₄ w₄.
                  and_then-keeps P _ _ (drop_rewrite_uploads-IsWellFormed r₄ w₄) λ _ r₅ w₅. w₅
    where
      Opens : Rules sh.State → Type 0
      Opens q = (q.rec.state ≡ rewriting s) × IsWellFormed q.rec

  module _ (caller : Caller) (r : Rules sh.State) (w : IsWellFormed r.rec) where
    pub commit_rewrite-IsWellFormed :
        (key : KeyId) → IsWellFormed (commit_rewrite sh caller key r).1.rec
    unfolding commit_rewrite and_then
    commit_rewrite-IsWellFormed key = grind (arith, held_session-eq, commit_session-IsWellFormed)

    pub abort_rewrite-IsWellFormed :
        (key : KeyId) → IsWellFormed (abort_rewrite sh caller key r).1.rec
    unfolding abort_rewrite and_then
    abort_rewrite-IsWellFormed key = grind (arith, end_aborted-IsWellFormed)

  pub operator_abort_rewrite-IsWellFormed :
      (env : Env) (force : Bool) (r : Rules sh.State)
      → IsWellFormed r.rec
      → IsWellFormed (operator_abort_rewrite sh env force r).1.rec
  unfolding operator_abort_rewrite and_then
  operator_abort_rewrite-IsWellFormed env force r w = grind (arith, end_aborted-IsWellFormed)

-- ===== src/Books/Rewrites.antt =====
-- The books under the rewrite of a workspace: a new generation has none, and the one that goes is
-- struck off.
use passalong_server.Base.{ℕ, ◌<◌, ◌≤◌, ◌≡◌, ◌≢◌, Bool, Option, arith}
use passalong_server.Books.{IsBooked, Balanced, Level}
use passalong_server.Books.Uploads.{drop_rewrite_uploads-Level}
use passalong_server.Ids.{KeyId, ApiKeyId}
use passalong_server.Map
use passalong_server.Map.Laws.{get-remove_ne}
use passalong_server.Map.Order.{nat_ord, text_ord}
use passalong_server.Record.{
  Caller, Seal, Session, RewriteRequest, settled, rewriting, WorkspaceRecord,
}
use passalong_server.Record.Generations.{IsWellFormed}
use passalong_server.Rewrite.{
  open_session, renew_lease, restored, switched, report_session, begin_settled, begin_again,
  begin_rewrite, heartbeat_rewrite, take_over_rewrite, commit_session, commit_rewrite, switch_over,
  put_back, end_aborted, abort_rewrite, operator_abort_rewrite,
}
use passalong_server.Rewrite.WellFormed.{held_session-eq}
use passalong_server.Rules.{Env, Rules, and_then}
use passalong_server.Rules.Keeps.{and_then-keeps, and_then-same, and_then-leads}
use passalong_server.Shelf.{ItemShelf}
use passalong_server.Shelf.Laws.{ShelfLaws}
use passalong_server.Views.{booked, live_generations}

struck-fresh :
    (rec : WorkspaceRecord) (g h : ℕ)
    → g < rec.next_generation
    → rec.next_generation ≤ h
    → booked rec h ≡ 0
    → booked (record rec { used = Map.remove g rec.used }) h ≡ 0
struck-fresh rec g h below above z = rw (get-remove_ne g h rec.used (λ p. omega arith)) z

staged-below :
    (x : Session) (rec : WorkspaceRecord)
    → rec.state ≡ rewriting x
    → IsWellFormed rec
    → x.staged_generation < rec.next_generation
staged-below x rec e w = let st = w.staged in ground arith

module _ {sh : ItemShelf} (laws : ShelfLaws sh) where
  -- A generation that is struck off was none of those that live on.
  struck-IsBooked :
      (rec : WorkspaceRecord) (t : sh.State) (g h : ℕ)
      → h ≢ g
      → IsBooked laws rec t h
      → IsBooked laws (record rec { used = Map.remove g rec.used }) t h
  struck-IsBooked rec t g h d e = rw (get-remove_ne g h rec.used d) e

  open_session-Balanced :
      (env : Env) (caller : Caller) (q : RewriteRequest) (prior : Option Seal)
      (rec : WorkspaceRecord) (t : sh.State)
      → rec.state ≡ settled prior
      → Balanced laws rec t
      → Balanced laws (open_session env caller q prior rec) t
  unfolding live_generations
  open_session-Balanced env caller q prior rec t e b = record {
    live = let new = b.fresh rec.next_generation (omega arith) in let l = b.live in ground arith;
    fresh = λ g h. b.fresh g (omega arith);
  }

  renew_lease-Balanced :
      (env : Env) (key : ApiKeyId) (rec : WorkspaceRecord) (t : sh.State)
      → Balanced laws rec t
      → Balanced laws (renew_lease env key rec) t
  unfolding live_generations renew_lease
  renew_lease-Balanced env key rec t b = record {
    live = let l = b.live in ground arith;
    fresh = b.fresh;
  }

  switched-Balanced :
      (x : Session) (rec : WorkspaceRecord) (t : sh.State)
      → rec.state ≡ rewriting x
      → IsWellFormed rec
      → Balanced laws rec t
      → Balanced laws (switched x rec) t
  unfolding live_generations
  switched-Balanced x rec t e w b = record {
    live =
        let l = b.live in
        let p = w.plain in let st = w.staged in grind (arith, struck-IsBooked rec t rec.generation);
    fresh = λ g h. ((b.fresh g h).0, struck-fresh rec rec.generation g w.below h (b.fresh g h).1);
  }

  restored-Balanced :
      (x : Session) (rec : WorkspaceRecord) (t : sh.State)
      → rec.state ≡ rewriting x
      → IsWellFormed rec
      → Balanced laws rec t
      → Balanced laws (restored x rec) t
  unfolding live_generations
  restored-Balanced x rec t e w b = record {
    live =
        let l = b.live in
        let p = w.plain in
        let st = w.staged in grind (arith, struck-IsBooked rec t x.staged_generation);
    fresh = λ g h. (
      (b.fresh g h).0,
      struck-fresh rec x.staged_generation g (staged-below x rec e w) h (b.fresh g h).1,
    );
  }

  module _ (s : sh.State) where
    abbrev L : Rules sh.State → Type 0
    L r = Level laws s r

    reports-Level : (r : Rules sh.State) → Level laws s r → Level laws s (report_session sh r).1
    unfolding and_then
    reports-Level r l = ground (arith, l)

    module _ (env : Env) (caller : Caller) where
      begin_settled-Level :
          (q : RewriteRequest) (prior : Option Seal) (r : Rules sh.State)
          → r.rec.state ≡ settled prior
          → Level laws s r
          → Level laws s (begin_settled sh env caller q prior r).1
      unfolding begin_settled
      begin_settled-Level q prior r e l = and_then-same L _ r _ l λ _ _.
          and_then-keeps L _ _ (open_session-Balanced env caller q prior r.rec r.shelf e l.0, l.1)
            λ _ r₁ l₁. reports-Level r₁ l₁

      begin_again-Level :
          (q : RewriteRequest) (x : Session) (r : Rules sh.State)
          → Level laws s r
          → Level laws s (begin_again sh env caller q x r).1
      unfolding begin_again and_then
      begin_again-Level q x r l =
          let b = renew_lease-Balanced env caller.key r.rec r.shelf l.0 in ground arith

      pub begin_rewrite-Level :
          (q : RewriteRequest) (r : Rules sh.State)
          → Level laws s r
          → Level laws s (begin_rewrite sh env caller q r).1
      unfolding begin_rewrite and_then
      begin_rewrite-Level q r l = grind (arith, begin_settled-Level, begin_again-Level)

      pub heartbeat_rewrite-Level :
          (r : Rules sh.State) → Level laws s r → Level laws s (heartbeat_rewrite sh env caller r).1
      unfolding heartbeat_rewrite
      heartbeat_rewrite-Level r l = and_then-keeps L _ _ l λ _ r₁ l₁.
          and_then-keeps L _ _ l₁ λ _ r₂ l₂.
            and_then-keeps L _ _ (renew_lease-Balanced env caller.key r₂.rec r₂.shelf l₂.0, l₂.1)
              λ _ r₃ l₃. reports-Level r₃ l₃

      pub take_over_rewrite-Level :
          (r : Rules sh.State) → Level laws s r → Level laws s (take_over_rewrite sh env caller r).1
      unfolding take_over_rewrite
      take_over_rewrite-Level r l = and_then-keeps L _ _ l λ _ r₁ l₁.
          and_then-keeps L _ _ l₁ λ _ r₂ l₂.
            and_then-keeps L _ _ (renew_lease-Balanced env caller.key r₂.rec r₂.shelf l₂.0, l₂.1)
              λ _ r₃ l₃. reports-Level r₃ l₃

    end_aborted-Level :
        (x : Session) (r : Rules sh.State)
        → r.rec.state ≡ rewriting x
        → IsWellFormed r.rec
        → Level laws s r
        → Level laws s (end_aborted sh x r).1
    unfolding end_aborted put_back
    end_aborted-Level x r e w l =
        and_then-keeps L _ _
          (and_then-keeps L _ _ (restored-Balanced x r.rec r.shelf e w l.0, l.1) λ _ r₁ l₁. l₁)
          λ _ r₂ l₂. and_then-keeps L _ _ (drop_rewrite_uploads-Level laws s r₂ l₂) λ _ r₃ l₃. l₃

    commit_session-Level :
        (x : Session) (r : Rules sh.State)
        → r.rec.state ≡ rewriting x
        → IsWellFormed r.rec
        → Level laws s r
        → Level laws s (commit_session sh x r).1
    unfolding commit_session switch_over
    commit_session-Level x r e w l = and_then-same L _ r _ l λ staged _.
        and_then-same L _ r _ l λ source _.
          and_then-leads Opens L _ _ (λ _ p. p.2) (ground (arith, e, w, l))
            λ _ r₃ p.
              and_then-keeps L _ _
                (and_then-leads Opens L _ _ (λ _ o. o.2) p
                  λ old r₄ o.
                    and_then-keeps L _ _ (switched-Balanced x r₄.rec r₄.shelf o.0 o.1 o.2.0, o.2.1)
                      λ _ r₅ l₅. l₅)
                λ _ r₆ l₆.
                  and_then-keeps L _ _ (drop_rewrite_uploads-Level laws s r₆ l₆) λ _ r₇ l₇. l₇
      where
        Opens : Rules sh.State → Type 0
        Opens q = (q.rec.state ≡ rewriting x) × IsWellFormed q.rec × L q

    module _ (caller : Caller) (key : KeyId) (r : Rules sh.State) (w : IsWellFormed r.rec)
        (l : L r) where
      pub commit_rewrite-Level : Level laws s (commit_rewrite sh caller key r).1
      unfolding commit_rewrite and_then
      commit_rewrite-Level = grind (arith, held_session-eq, commit_session-Level)

      pub abort_rewrite-Level : Level laws s (abort_rewrite sh caller key r).1
      unfolding abort_rewrite and_then
      abort_rewrite-Level = grind (arith, held_session-eq, end_aborted-Level)

    pub operator_abort_rewrite-Level :
        (env : Env) (force : Bool) (r : Rules sh.State)
        → IsWellFormed r.rec
        → Level laws s r
        → Level laws s (operator_abort_rewrite sh env force r).1
    unfolding operator_abort_rewrite and_then
    operator_abort_rewrite-Level env force r w l = grind (arith, end_aborted-Level)

-- ===== src/Rewrite/Cleanups.antt =====
-- What the end of a rewrite asks to be removed from the shelf is nothing that the record still
-- points to.
use passalong_server.Base.{ℕ, ◌≡◌, ap, ◌∙◌, Bool, arith}
use passalong_server.Error.{ok, not_found}
use passalong_server.Ids.{KeyId}
use passalong_server.Map.Order.{nat_ord, text_ord}
use passalong_server.Map.Sorted.{IsSorted}
use passalong_server.Record.{Caller, Session, EncryptionStatus, settled, rewriting}
use passalong_server.Record.Cleanups.{AsksSafely}
use passalong_server.Record.Generations.{IsWellFormed}
use passalong_server.Rewrite.{
  put_back, switch_over, commit_session, commit_open, commit_rewrite, end_aborted, abort_open,
  abort_rewrite, operator_abort_rewrite, operator_session, named, commit_in, abort_in, is_under,
}
use passalong_server.Workspace.{report}
use passalong_server.Rewrite.WellFormed.{held_session-eq}
use passalong_server.Rules.{Env, Rules, and_then, refuse}
use passalong_server.Rules.Keeps.{and_then-keeps, and_then-leads, and_then-same, if-keeps}
use passalong_server.Shelf.{ItemShelf}
use passalong_server.Upload.Cleanups.{AsksNothing, AsksSafely-nil, drop_rewrite_uploads-AsksSafely}
use passalong_server.Views.{live_generations}

operator_session-eq :
    (state : EncryptionStatus) (force : Bool) (now : ℕ) (s : Session)
    → operator_session state force now ≡ ok s
    → state ≡ rewriting s
operator_session-eq (settled seal) force now s h = cc
operator_session-eq (rewriting session) force now s h = ground arith

module _ (sh : ItemShelf) where
  -- A session is open, the record is well formed, and nothing is asked for.
  abbrev Opens : Session → Rules sh.State → Type 0
  Opens s r = (r.rec.state ≡ rewriting s) × IsWellFormed r.rec × AsksNothing r

  Opens-safely : (s : Session) (r : Rules sh.State) → Opens s r → AsksSafely r
  Opens-safely s r p = AsksSafely-nil r p.2

  -- The tickets in order, and what was asked for safe.
  abbrev Ends : Rules sh.State → Type 0
  Ends r = IsSorted r.rec.tickets × AsksSafely r

  switch_over-Ends : (s : Session) (r : Rules sh.State) → Opens s r → Ends (switch_over sh s r).1
  unfolding switch_over and_then live_generations
  switch_over-Ends s r p = (p.1.tickets, rw p.2 (ground arith))

  put_back-Ends : (s : Session) (r : Rules sh.State) → Opens s r → Ends (put_back sh s r).1
  unfolding put_back and_then live_generations
  put_back-Ends s r p = (p.1.tickets, rw p.2 (ground arith))

  commit_session-AsksSafely :
      (s : Session) (r : Rules sh.State) → Opens s r → AsksSafely (commit_session sh s r).1
  unfolding commit_session
  commit_session-AsksSafely s r p =
      and_then-leads (Opens s) AsksSafely _ _ (Opens-safely s) p λ staged r₁ p₁.
        and_then-leads (Opens s) AsksSafely _ _ (Opens-safely s) p₁ λ source r₂ p₂.
          and_then-leads (Opens s) AsksSafely _ _ (Opens-safely s) (ground arith) λ _ r₃ p₃.
            and_then-leads Ends AsksSafely _ _ (λ _ q. q.1) (switch_over-Ends s r₃ p₃)
              λ _ r₄ q₄.
                and_then-keeps AsksSafely _ _ (drop_rewrite_uploads-AsksSafely r₄ q₄.0 q₄.1)
                  λ _ r₅ a₅. a₅

  end_aborted-AsksSafely :
      (s : Session) (r : Rules sh.State) → Opens s r → AsksSafely (end_aborted sh s r).1
  unfolding end_aborted
  end_aborted-AsksSafely s r p =
      and_then-leads Ends AsksSafely _ _ (λ _ q. q.1) (put_back-Ends s r p)
        λ _ r₁ q₁.
          and_then-keeps AsksSafely _ _ (drop_rewrite_uploads-AsksSafely r₁ q₁.0 q₁.1) λ _ r₂ a₂. a₂

  named-eq : (key : KeyId) (s t : Session) → named sh key s ≡ ok t → s ≡ t
  named-eq key s t h = ground arith

  module _ (r : Rules sh.State) (w : IsWellFormed r.rec) (e : AsksNothing r) where
    module _ (caller : Caller) (key : KeyId) where
      commit_open-AsksSafely : AsksSafely (commit_open sh caller key r).1
      unfolding commit_open
      commit_open-AsksSafely = and_then-same AsksSafely _ r _ (AsksSafely-nil r e) λ s h.
          and_then-same AsksSafely _ r _ (AsksSafely-nil r e) λ t n.
            commit_session-AsksSafely t r
              (held_session-eq r.rec caller s h ∙ ap rewriting (named-eq key s t n), w, e)

      pub commit_rewrite-AsksSafely : AsksSafely (commit_rewrite sh caller key r).1
      unfolding commit_rewrite
      commit_rewrite-AsksSafely = and_then-same AsksSafely _ r _ (AsksSafely-nil r e) λ _ _.
          and_then-same AsksSafely _ r _ (AsksSafely-nil r e) λ state _. commit_in-AsksSafely state
        where
          commit_in-AsksSafely :
              (state : EncryptionStatus) → AsksSafely (commit_in sh caller key state r).1
          commit_in-AsksSafely (settled seal) =
              if-keeps AsksSafely (is_under seal key) (report sh) (refuse not_found) r
                (AsksSafely-nil r e) (AsksSafely-nil r e)
          commit_in-AsksSafely (rewriting session) = commit_open-AsksSafely

      abort_open-AsksSafely : AsksSafely (abort_open sh caller key r).1
      unfolding abort_open
      abort_open-AsksSafely = and_then-same AsksSafely _ r _ (AsksSafely-nil r e) λ s h.
          and_then-same AsksSafely _ r _ (AsksSafely-nil r e) λ t n.
            end_aborted-AsksSafely t r
              (held_session-eq r.rec caller s h ∙ ap rewriting (named-eq key s t n), w, e)

      pub abort_rewrite-AsksSafely : AsksSafely (abort_rewrite sh caller key r).1
      unfolding abort_rewrite
      abort_rewrite-AsksSafely = and_then-same AsksSafely _ r _ (AsksSafely-nil r e) λ _ _.
          and_then-same AsksSafely _ r _ (AsksSafely-nil r e) λ state _. abort_in-AsksSafely state
        where
          abort_in-AsksSafely :
              (state : EncryptionStatus) → AsksSafely (abort_in sh caller key state r).1
          abort_in-AsksSafely (settled seal) = AsksSafely-nil r e
          abort_in-AsksSafely (rewriting session) = abort_open-AsksSafely

    pub operator_abort_rewrite-AsksSafely :
        (env : Env) (force : Bool) → AsksSafely (operator_abort_rewrite sh env force r).1
    unfolding operator_abort_rewrite
    operator_abort_rewrite-AsksSafely env force =
        and_then-same AsksSafely _ r _ (AsksSafely-nil r e) λ s h.
          end_aborted-AsksSafely s r (operator_session-eq r.rec.state force env.now s h, w, e)

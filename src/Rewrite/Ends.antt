-- ===== src/Rewrite/Ends.antt =====
-- What the end of a rewrite leaves of the workspace.
use passalong_server.Base.{◌≡◌, refl, sym, some, true, List, [], ◌∷◌, arith, subst, Bool}
use passalong_server.Error.{ok}
use passalong_server.Ids.{KeyId, UploadId}
use passalong_server.Map
use passalong_server.Map.Laws.{contains_key-insert}
use passalong_server.Map.Order.{nat_ord, text_ord}
use passalong_server.Record.{
  Caller, Session, rewriting, settled, WorkspaceRecord, EncryptionView, Uploads,
}
use passalong_server.Rewrite.{
  put_back, switch_over, end_aborted, abort_open, abort_rewrite, commit_session, commit_open,
  commit_rewrite, M, operator_abort_rewrite,
}
use passalong_server.Rules.{Env, Rules, and_then}
use passalong_server.Rules.Keeps.{and_then-keeps}
use passalong_server.Rules.Post.{Post, and_then-Post, and_then-saw_Post, Post-holds, keeps-Post}
use passalong_server.Shelf.{ItemShelf}
use passalong_server.Upload.Begin.{drop_tickets}
use passalong_server.Upload.Janitor.{drop_rewrite_uploads, ended_uploads}
use passalong_server.Views.{held_session}

-- Giving tickets up changes nothing but the uploads.
drop_tickets-uploads :
    {S : Type 0} (ids : List UploadId) (r : Rules S)
    → (drop_tickets ids r).1.rec ≡ record r.rec { uploads = (drop_tickets ids r).1.rec.uploads }
unfolding drop_tickets and_then
drop_tickets-uploads [] r = refl
drop_tickets-uploads (u ∷ ids) r = drop_tickets-uploads ids _

-- The two ways to give an open rewrite up: its holder's, and the operator's.
pub data Ending : Type 0 where
  by_holder : Caller → KeyId → Ending
  by_operator : Bool → Ending

abbrev pub ends : (sh : ItemShelf) → Env → Ending → M sh.State EncryptionView
ends sh env (by_holder caller key) = abort_rewrite sh caller key
ends sh env (by_operator force) = operator_abort_rewrite sh env force

-- The rewrite of `rec` was given up, or has become the workspace.
abbrev pub GivenUp : Session → WorkspaceRecord → WorkspaceRecord → Type 0
GivenUp x rec now =
    (now.state ≡ settled x.prior)
    × (now.generation ≡ rec.generation)
    × (now.plain ≡ rec.plain)
    × (Map.contains_key x.next.key_id now.ended_rewrites ≡ true)

abbrev pub Switched : Session → WorkspaceRecord → WorkspaceRecord → Type 0
Switched x rec now =
    (now.state ≡ settled (some x.next))
    × (now.generation ≡ x.staged_generation)
    × (now.plain ≡ rec.plain)
    × (now.ended_rewrites ≡ rec.ended_rewrites)

drop_rewrite_uploads-keeps :
    {S : Type 0} (P : WorkspaceRecord → Type 0)
    → ((rec : WorkspaceRecord) (u : Uploads) → P rec → P (record rec { uploads = u }))
    → (r : Rules S) → P r.rec
    → P (drop_rewrite_uploads r).1.rec
unfolding drop_rewrite_uploads and_then
drop_rewrite_uploads-keeps P keep r p =
    subst P (sym (drop_tickets-uploads (ended_uploads r.rec) r)) (keep r.rec _ p)

module _ (sh : ItemShelf) (x : Session) where
  end_aborted-GivenUp : (r : Rules sh.State) → GivenUp x r.rec (end_aborted sh x r).1.rec
  unfolding end_aborted put_back
  end_aborted-GivenUp r =
      and_then-keeps P _ _
        (and_then-keeps P _ _
          (refl, refl, refl, contains_key-insert x.next.key_id tt r.rec.ended_rewrites) λ _ r₁ p. p)
        λ _ r₂ p.
          and_then-keeps P _ _ (drop_rewrite_uploads-keeps (GivenUp x r.rec) (λ rec u g. g) r₂ p)
            λ _ r₃ q. q
    where
      P : Rules sh.State → Type 0
      P q = GivenUp x r.rec q.rec

  -- Where the end of an open rewrite by its holder or by the operator succeeds, the rewrite was
  -- given up.
  pub ends-GivenUp :
      (env : Env) (ending : Ending) (r : Rules sh.State) (view : EncryptionView)
      → r.rec.state ≡ rewriting x
      → (ends sh env ending r).0 ≡ ok view
      → GivenUp x r.rec (ends sh env ending r).1.rec
  unfolding abort_rewrite abort_open operator_abort_rewrite held_session and_then
  ends-GivenUp env (by_holder caller key) r view e done = ground (arith, end_aborted-GivenUp r)
  ends-GivenUp env (by_operator force) r view e done = ground (arith, end_aborted-GivenUp r)

  switch_over-Switched :
      (rec : WorkspaceRecord) (q : Rules sh.State)
      → q.rec ≡ rec
      → Switched x rec (switch_over sh x q).1.rec
  unfolding switch_over and_then
  switch_over-Switched rec q e = rw (sym e) (refl, refl, refl, refl)

  commit_session-Switched :
      (r : Rules sh.State) → Post (λ _ q. Switched x r.rec q.rec) (commit_session sh x r)
  unfolding commit_session
  commit_session-Switched r = and_then-saw_Post _ _ r _ λ staged _.
      and_then-saw_Post _ _ r _ λ source _.
        and_then-Post (λ _ q. q.rec ≡ r.rec) _ _ _ (ground (arith, r))
          λ _ r₁ e. keeps-Post P _ (
            and_then-keeps P _ _ (switch_over-Switched r.rec r₁ e) λ _ r₂ p.
              and_then-keeps P _ _
                (drop_rewrite_uploads-keeps (Switched x r.rec) (λ rec u g. g) r₂ p) λ _ r₃ q. q)
    where
      P : Rules sh.State → Type 0
      P q = Switched x r.rec q.rec

  -- Where a commit of an open rewrite succeeds, the workspace is sealed under the new key and its
  -- items are those that were staged; its plain partition is as it was.
  pub commit_rewrite-Switched :
      (caller : Caller) (key : KeyId) (r : Rules sh.State) (view : EncryptionView)
      → r.rec.state ≡ rewriting x
      → (commit_rewrite sh caller key r).0 ≡ ok view
      → Switched x r.rec (commit_rewrite sh caller key r).1.rec
  unfolding commit_rewrite commit_open held_session and_then
  commit_rewrite-Switched caller key r view e done = grind (
    arith,
    Post-holds (λ _ q. Switched x r.rec q.rec) (commit_session sh x r) view,
    commit_session-Switched r,
  )

-- ===== src/Books/Run.antt =====
-- The books after an operation as a whole: the rule, the record stored, and the removals after it.
use passalong_server.Api.{
  Change, deletes, enables, freshens, replaces, begins_upload, commits_upload, aborts_upload,
  begins_rewrite, heartbeats, takes_over, commits_rewrite, aborts_rewrite, operator_aborts, cleans,
  repairs, rule_of,
}
use passalong_server.Api.Cleanups.{rule_of-AsksSafely}
use passalong_server.Base.{◌≡◌, ◌≢◌, refl, sym, ◌∙◌, List, [], ◌∷◌, ℕ, some, All, All-mono}
use passalong_server.Books.{IsBooked, Balanced, Settles, Level}
use passalong_server.Books.Changes.{
  Level-Settles, enable_encryption-Settles, fresh_start-Settles, replace_header-Settles,
  Balanced-same,
}
use passalong_server.Books.Commits.{commit_upload-Settles}
use passalong_server.Books.Items.{delete_item-Settles}
use passalong_server.Books.Rewrites.{
  begin_rewrite-Level, heartbeat_rewrite-Level, take_over_rewrite-Level, commit_rewrite-Level,
  abort_rewrite-Level, operator_abort_rewrite-Level,
}
use passalong_server.Books.Sweeps.{clean_staging-Sweeps, reconcile-Sweeps}
use passalong_server.Books.Uploads.{begin_upload-Level, abort_upload-Level}
use passalong_server.Engine.{Engine, write, perform, perform_all}
use passalong_server.Engine.Transactions.{start, outcome, write-outcome}
use passalong_server.Error.{Result, ok, err, spins}
use passalong_server.Map
use passalong_server.Map.Laws.{get-insert_self}
use passalong_server.Map.Order.{text_ord}
use passalong_server.Record.{Cleanup, drop_generation, remove_staging, WorkspaceRecord}
use passalong_server.Record.Cleanups.{IsHarmless, AsksSafely}
use passalong_server.Record.Generations.{IsWellFormed}
use passalong_server.Rules.{Env, Rules, and_then}
use passalong_server.Shelf.{ItemShelf}
use passalong_server.Shelf.Laws.{ShelfLaws}
use passalong_server.Views.{live_generations}

module _ {sh : ItemShelf} (laws : ShelfLaws sh) where
  module _ (s : sh.State) where
    silent-Settles :
        {A : Type 0} (x : Result A × Rules sh.State)
        → Settles laws s x
        → Settles laws s (and_then x (λ _ r. (ok tt, r)))
    unfolding and_then
    silent-Settles (ok a, r) p = p
    silent-Settles (err e, r) p = p
    silent-Settles (spins, r) p = p

    silent-Level :
        {A : Type 0} (x : Result A × Rules sh.State)
        → Level laws s x.1
        → Settles laws s (and_then x (λ _ r. (ok tt, r)))
    silent-Level x l = silent-Settles x (Level-Settles laws s x l)

    -- On any shelf that keeps the laws, a rule that starts from a well-formed record with the books
    -- right, and nothing in generations that are yet to be given out, either answers and leaves it so, or
    -- refuses and leaves every generation's bytes on the shelf as they were.
    pub rule_of-Settles :
        (env : Env) (c : Change) (r : Rules sh.State)
        → IsWellFormed r.rec
        → Level laws s r
        → Settles laws s (rule_of sh env c r)
    unfolding rule_of
    rule_of-Settles env (deletes caller p id k) r w l =
        silent-Settles _ (delete_item-Settles laws s caller p id k r l)
    rule_of-Settles env (enables caller k h) r w l =
        silent-Settles _ (enable_encryption-Settles laws s caller k h r l)
    rule_of-Settles env (freshens caller k h) r w l =
        silent-Settles _ (fresh_start-Settles laws s caller k h r l)
    rule_of-Settles env (replaces caller k h) r w l =
        silent-Settles _ (replace_header-Settles laws s caller k h r l)
    rule_of-Settles env (begins_upload caller q) r w l =
        silent-Level _ (begin_upload-Level laws s env caller q r l)
    rule_of-Settles env (commits_upload caller u) r w l =
        silent-Settles _ (commit_upload-Settles laws s env caller u r w l)
    rule_of-Settles env (aborts_upload caller u) r w l =
        Level-Settles laws s _ (abort_upload-Level laws s caller u r l)
    rule_of-Settles env (begins_rewrite caller q) r w l =
        silent-Level _ (begin_rewrite-Level laws s env caller q r l)
    rule_of-Settles env (heartbeats caller) r w l =
        silent-Level _ (heartbeat_rewrite-Level laws s env caller r l)
    rule_of-Settles env (takes_over caller) r w l =
        silent-Level _ (take_over_rewrite-Level laws s env caller r l)
    rule_of-Settles env (commits_rewrite caller k) r w l =
        silent-Level _ (commit_rewrite-Level laws s caller k r w l)
    rule_of-Settles env (aborts_rewrite caller k) r w l =
        silent-Level _ (abort_rewrite-Level laws s caller k r w l)
    rule_of-Settles env (operator_aborts f) r w l =
        silent-Level _ (operator_abort_rewrite-Level laws s env f r w l)
    rule_of-Settles env cleans r w l =
        silent-Level _ (clean_staging-Sweeps laws s env r (w.used, l)).1
    rule_of-Settles env repairs r w l = Level-Settles laws s _ (reconcile-Sweeps laws s env r w l).1

  -- A harmless removal leaves the bytes of the live generations.
  perform-IsBooked :
      (rec : WorkspaceRecord) (c : Cleanup) (t : sh.State)
      → IsHarmless rec c
      → All (IsBooked laws rec t) (live_generations rec)
      → All (IsBooked laws rec (perform sh c t)) (live_generations rec)
  unfolding perform
  perform-IsBooked rec (remove_staging u) t h p =
      All-mono (IsBooked laws rec t) _ (live_generations rec)
        (λ g e. e ∙ sym (laws.unstage_same u t g)) p
  perform-IsBooked rec (drop_generation g) t h p = apart (live_generations rec) h p
    where
      apart :
          (ls : List ℕ)
          → All (λ l. l ≢ g) ls
          → All (IsBooked laws rec t) ls
          → All (IsBooked laws rec (sh.drop_generation g t).1) ls
      apart [] d p = tt
      apart (l ∷ ls) d p = (p.0 ∙ sym (laws.drop_only g t l d.0), apart ls d.1 p.1)

  perform_all-IsBooked :
      (rec : WorkspaceRecord) (cs : List Cleanup) (t : sh.State)
      → All (IsHarmless rec) cs
      → All (IsBooked laws rec t) (live_generations rec)
      → All (IsBooked laws rec (perform_all sh cs t)) (live_generations rec)
  unfolding perform_all
  perform_all-IsBooked rec [] t h p = p
  perform_all-IsBooked rec (c ∷ cs) t h p =
      perform_all-IsBooked rec cs _ h.1 (perform-IsBooked rec c t h.0 p)

  -- The stored record books what the shelf holds, in every generation that it points to.
  abbrev pub Books : Engine sh.State → Type 0
  Books e =
      (rec : WorkspaceRecord) × (Map.get e.workspace e.ledger ≡ some rec)
      × All (IsBooked laws rec e.shelf) (live_generations rec)

  outcome-Books :
      {A : Type 0} (e : Engine sh.State) (rec : WorkspaceRecord)
      → Map.get e.workspace e.ledger ≡ some rec
      → Balanced laws rec e.shelf
      → (x : Result A × Rules sh.State) → Settles laws e.shelf x
      → AsksSafely x.1
      → Books (outcome sh e x).1
  outcome-Books e rec h b (ok a, r) p safe = (
    r.rec,
    get-insert_self e.workspace r.rec e.ledger,
    perform_all-IsBooked r.rec r.after r.shelf safe p.live,
  )
  outcome-Books e rec h b (err x, r) p safe =
      (rec, h, (Balanced-same laws rec e.shelf r.shelf p b).live)
  outcome-Books e rec h b (spins, r) p safe =
      (rec, h, (Balanced-same laws rec e.shelf r.shelf p b).live)

  -- On any shelf that keeps the laws: where the stored record is well formed, the books are right, and
  -- nothing is held or booked in a generation that is yet to be given out, the books are right for every
  -- live generation after any operation as well, once its removals are done, and also where it refused.
  -- What the record then stored has booked for the workspace's items, for its plain partition and for a
  -- rewrite's staged items is what the shelf then holds in each.
  pub write-Books :
      (env : Env) (c : Change) (e : Engine sh.State) (rec : WorkspaceRecord)
      → Map.get e.workspace e.ledger ≡ some rec
      → IsWellFormed rec
      → Balanced laws rec e.shelf
      → Books (write sh (rule_of sh env c) e).1
  write-Books env c e rec h w b = rw (write-outcome sh (rule_of sh env c) e rec h) (
      outcome-Books e rec h b _ (rule_of-Settles e.shelf env c (start e rec) w (b, λ g. refl))
        (rule_of-AsksSafely sh env c (start e rec) w refl))

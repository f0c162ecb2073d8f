-- ===== src/Books/Sweeps.antt =====
-- The books when the janitor works: what it strikes off is none of what lives on.
use passalong_server.Base.{
  ℕ, suc, ◌<◌, ◌≡◌, ◌≢◌, refl, sym, any, inl, inr, Bool-cases, List, [], ◌∷◌, arith, All, subst,
  ◌==◌, ℕ_discrete,
}
use passalong_server.Books.{IsBooked, Balanced, Level}
use passalong_server.Books.Items.{rebooked-Balanced}
use passalong_server.Books.Uploads.{uploads-Balanced}
use passalong_server.Ids.{UploadId}
use passalong_server.Map
use passalong_server.Map.Laws.{get-remove_ne}
use passalong_server.Map.Order.{nat_ord, text_ord}
use passalong_server.Map.Sorted.{IsSorted, get-remove_self, remove-IsSorted, insert-IsSorted}
use passalong_server.Record.{WorkspaceRecord}
use passalong_server.Record.Generations.{IsWellFormed}
use passalong_server.Rules.{Env, Rules, and_then}
use passalong_server.Rules.Keeps.{and_then-keeps, and_then-same, and_then-leads}
use passalong_server.Shelf.{ItemShelf}
use passalong_server.Shelf.Laws.{ShelfLaws}
use passalong_server.Upload.Cleanups.{not-any}
use passalong_server.Upload.Janitor.{
  sweep_staging, sweep_generations, sweep_shelf, clean_staging, rebook, reconcile, forget_expired,
}
use passalong_server.Views.{booked, live_generations}

below-live :
    (rec : WorkspaceRecord) (live : List ℕ)
    → IsWellFormed rec
    → live ≡ live_generations rec
    → All (λ g. g < rec.next_generation) live
unfolding live_generations
below-live rec live w e =
    subst (All (λ g. g < rec.next_generation)) (sym e)
      (let p = w.plain in let st = w.staged in ground (arith, w.below))

module _ {sh : ItemShelf} (laws : ShelfLaws sh) where
  -- Striking off a generation that is not live leaves the books as right as they were.
  struck-Balanced :
      (g : ℕ) (rec : WorkspaceRecord) (t : sh.State)
      → IsSorted rec.used
      → All (λ l. l ≢ g) (live_generations rec)
      → Balanced laws rec t
      → Balanced laws (record rec { used = Map.remove g rec.used }) t
  unfolding live_generations
  struck-Balanced g rec t sorted apart b = record {
    live = kept (live_generations rec) apart b.live;
    fresh = λ h above. ((b.fresh h above).0, emptied h (b.fresh h above).1 (ℕ_discrete h g));
  }
    where
      after : WorkspaceRecord
      after = record rec { used = Map.remove g rec.used }

      kept :
          (hs : List ℕ)
          → All (λ l. l ≢ g) hs
          → All (IsBooked laws rec t) hs
          → All (IsBooked laws after t) hs
      kept [] d p = tt
      kept (h ∷ hs) d p = (rw (get-remove_ne g h rec.used d.0) p.0, kept hs d.1 p.1)

      emptied : (h : ℕ) → booked rec h ≡ 0 → Dec (h ≡ g) → booked after h ≡ 0
      emptied h z (yes e) = rw (e, get-remove_self g rec.used sorted) refl
      emptied h z (no d) = rw (get-remove_ne g h rec.used d) z

  module _ (s : sh.State) where
    abbrev Sweeps : Rules sh.State → Type 0
    Sweeps r = IsSorted r.rec.used × Level laws s r

    sweep_staging-Sweeps :
        (ids : List UploadId) (n : ℕ) (r : Rules sh.State)
        → Sweeps r
        → Sweeps (sweep_staging ids n r).1
    unfolding sweep_staging and_then
    sweep_staging-Sweeps [] n r p = p
    sweep_staging-Sweeps (u ∷ ids) n r p = elim (Bool-cases (Map.contains_key u r.rec.tickets)) [
      | inl known ↦ rw known (sweep_staging-Sweeps ids n r p)
      | inr unknown ↦ rw unknown (sweep_staging-Sweeps ids (suc n) _ p)
    ]

    sweep_generations-Sweeps :
        (live gs : List ℕ) (r : Rules sh.State)
        → live_generations r.rec ≡ live
        → Sweeps r
        → Sweeps (sweep_generations live gs r).1
    unfolding sweep_generations and_then live_generations
    sweep_generations-Sweeps live [] r e p = p
    sweep_generations-Sweeps live (g ∷ gs) r e p = elim (Bool-cases (any (λ h. h == g) live)) [
      | inl known ↦ rw (known, sweep_generations) (sweep_generations-Sweeps live gs r e p)
      | inr rubbish ↦
          rw (rubbish, sweep_generations)
            (sweep_generations-Sweeps live gs _ e (
              remove-IsSorted g r.rec.used p.0,
              (
                struck-Balanced g r.rec r.shelf p.0
                    (subst (All (λ l. l ≢ g)) (sym e) (not-any g live rubbish)) p.1.0,
                p.1.1,
              ),
            ))
    ]

    sweep_shelf-Sweeps : (r : Rules sh.State) → Sweeps r → Sweeps (sweep_shelf sh r).1
    unfolding sweep_shelf
    sweep_shelf-Sweeps r p = and_then-same Sweeps _ r _ p λ live is.
        and_then-same Sweeps _ r _ p
          λ gs _. sweep_generations-Sweeps live gs r (ground (arith, is)) p

    pub clean_staging-Sweeps :
        (env : Env) (r : Rules sh.State) → Sweeps r → Sweeps (clean_staging sh env r).1
    unfolding clean_staging
    clean_staging-Sweeps env r p =
        and_then-keeps Sweeps _ _
          (
            p.0,
            (
              uploads-Balanced laws (forget_expired env.now r.rec).uploads r.rec r.shelf p.1.0,
              p.1.1,
            ),
          )
          λ _ r₁ p₁. and_then-keeps Sweeps _ _ p₁ λ ids r₂ p₂.
            and_then-keeps Sweeps _ _ (sweep_staging-Sweeps ids 0 r₂ p₂)
              λ n r₃ p₃. and_then-keeps Sweeps _ _ (sweep_shelf-Sweeps r₃ p₃) λ _ r₄ p₄. p₄

    -- The loop of `reconcile` over generations that have been given out.
    rebook-Sweeps :
        (gs : List ℕ) (next : ℕ) (r : Rules sh.State)
        → All (λ g. g < next) gs
        → r.rec.next_generation ≡ next
        → Sweeps r
        → Sweeps (rebook sh gs r).1
    unfolding rebook
    rebook-Sweeps [] next r below e p = p
    rebook-Sweeps (g ∷ gs) next r below e p = and_then-same Sweeps _ r _ p λ n seen.
        and_then-leads Going Sweeps _ _ (λ _ q. q.1)
          (
            e,
            (
              insert-IsSorted g n r.rec.used p.0,
              (
                rebooked-Balanced laws r.rec r.shelf r.shelf g n (λ h d. refl)
                    (λ _. laws.bytes_count g r.shelf n seen) (λ above. omega (arith, below.0))
                    p.1.0,
                p.1.1,
              ),
            ),
          )
          λ _ r₁ q. rebook-Sweeps gs next r₁ below.1 q.0 q.1
      where
        Going : Rules sh.State → Type 0
        Going q = (q.rec.next_generation ≡ next) × Sweeps q

    pub reconcile-Sweeps :
        (env : Env) (r : Rules sh.State)
        → IsWellFormed r.rec
        → Level laws s r
        → Sweeps (reconcile sh env r).1
    unfolding reconcile
    reconcile-Sweeps env r w l =
        and_then-same Sweeps _ r _ (w.used, l)
          λ live is.
            and_then-keeps Sweeps _ _
              (rebook-Sweeps live r.rec.next_generation r
                (below-live r.rec live w (ground (arith, is))) refl (w.used, l))
              λ _ r₁ p₁. and_then-keeps Sweeps _ _ (clean_staging-Sweeps env r₁ p₁) λ _ r₂ p₂. p₂

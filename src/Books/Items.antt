-- ===== src/Books/Items.antt =====
-- The books under the steps that change one generation: a deletion, a publish, and a publish that
-- is recorded late.
use passalong_server.Base.{
  ℕ, ◌-◌, ◌≤◌, ◌≡◌, sym, ◌∙◌, ◌≢◌, Option, none, some, arith, All-mono, ℕ_discrete, subst,
}
use passalong_server.Books.{IsBooked, Balanced, Settles, Level}
use passalong_server.Books.Changes.{and_then-Settles}
use passalong_server.Error.{Result, ok, err, spins}
use passalong_server.Ids.{ItemId, KeyId}
use passalong_server.Map
use passalong_server.Map.Laws.{get-insert_self, get-insert_ne}
use passalong_server.Map.Order.{nat_ord}
use passalong_server.Record.{Caller, Partition, WorkspaceRecord}
use passalong_server.Rules.{Rules, and_then}
use passalong_server.Shelf.{ItemShelf, StoredItem}
use passalong_server.Shelf.Laws.{ShelfLaws, Only, Taken}
use passalong_server.Views.{booked, live_generations}
use passalong_server.Workspace.{delete_item, take_from_books}

pub booked-insert_self :
    (g n : ℕ) (rec : WorkspaceRecord) → booked (record rec { used = Map.insert g n rec.used }) g ≡ n
booked-insert_self g n rec = rw (get-insert_self g n rec.used)

pub booked-insert_ne :
    (g h n : ℕ) (rec : WorkspaceRecord)
    → h ≢ g
    → booked (record rec { used = Map.insert g n rec.used }) h ≡ booked rec h
booked-insert_ne g h n rec d = rw (get-insert_ne g h n rec.used d)

module _ {sh : ItemShelf} (laws : ShelfLaws sh) where
  -- New books for one generation, beside a shelf that changed in that one alone.
  pub rebooked-Balanced :
      (rec : WorkspaceRecord) (s t : sh.State) (g n : ℕ)
      → Only laws.count g s t
      → (booked rec g ≡ laws.count g s → n ≡ laws.count g t)
      → (rec.next_generation ≤ g → (laws.count g t ≡ 0) × (n ≡ 0))
      → Balanced laws rec s
      → Balanced laws (record rec { used = Map.insert g n rec.used }) t
  unfolding live_generations
  rebooked-Balanced rec s t g n only new none_yet b = record {
    live = All-mono (IsBooked laws rec s) (IsBooked laws after t) (live_generations rec) one b.live;
    fresh = λ h above. fresh_one h above (ℕ_discrete h g);
  }
    where
      after : WorkspaceRecord
      after = record rec { used = Map.insert g n rec.used }

      one_of : (h : ℕ) → IsBooked laws rec s h → Dec (h ≡ g) → IsBooked laws after t h
      one_of h e (yes p) =
          subst (IsBooked laws after t) (sym p)
            (booked-insert_self g n rec ∙ new (subst (IsBooked laws rec s) p e))
      one_of h e (no d) = booked-insert_ne g h n rec d ∙ e ∙ sym (only h d)

      one : (h : ℕ) → IsBooked laws rec s h → IsBooked laws after t h
      one h e = one_of h e (ℕ_discrete h g)

      fresh_one :
          (h : ℕ)
          → rec.next_generation ≤ h
          → Dec (h ≡ g)
          → (laws.count h t ≡ 0) × (booked after h ≡ 0)
      fresh_one h above (yes p) =
          subst (λ k. (laws.count k t ≡ 0) × (booked after k ≡ 0)) (sym p)
            (let z = none_yet (subst (λ k. rec.next_generation ≤ k) p above) in
              (z.0, booked-insert_self g n rec ∙ z.1))
      fresh_one h above (no d) =
          (only h d ∙ (b.fresh h above).0, booked-insert_ne g h n rec d ∙ (b.fresh h above).1)

  -- A generation that keeps its bytes, in a step that changes no other one.
  pub unmoved :
      {s t : sh.State} (g h : ℕ)
      → Only laws.count g s t
      → laws.count g t ≡ laws.count g s
      → laws.count h t ≡ laws.count h s
  unmoved {s} {t} g h only e = elim (ℕ_discrete h g) [
    | yes p ↦ subst (λ k. laws.count k t ≡ laws.count k s) (sym p) e
    | no d ↦ only h d
  ]

  module _ (s : sh.State) where
    -- The tail of a deletion, by what the shelf answered.
    removed-Settles :
        (g : ℕ) (r : Rules sh.State) (x : Result (Option StoredItem)) (t : sh.State)
        → Level laws s r
        → Only laws.count g r.shelf t
        → Taken (laws.count g r.shelf) (laws.count g t) x
        → Settles laws s (and_then (x, record r { shelf = t }) (take_from_books sh g))
    unfolding and_then take_from_books
    removed-Settles g r (ok (some item)) t l only taken =
        rebooked-Balanced r.rec r.shelf t g (booked r.rec g - item.size) only (λ e. omega arith)
          (λ above. let z = l.0.fresh g above in (omega arith, omega arith)) l.0
    removed-Settles g r (ok none) t l only taken = λ h. unmoved g h only taken ∙ l.1 h
    removed-Settles g r (err e) t l only taken = λ h. unmoved g h only taken ∙ l.1 h
    removed-Settles g r spins t l only taken = λ h. unmoved g h only taken ∙ l.1 h

    -- A deletion takes the item's bytes off the books of its generation, and of no other.
    pub delete_item-Settles :
        (caller : Caller) (partition : Partition) (id : ItemId) (expected : Option KeyId)
        (r : Rules sh.State)
        → Level laws s r
        → Settles laws s (delete_item sh caller partition id expected r)
    unfolding delete_item
    delete_item-Settles caller partition id expected r l = and_then-Settles laws s _ _ l λ _ r₁ l₁.
        and_then-Settles laws s _ _ l₁ λ _ r₂ l₂. and_then-Settles laws s _ _ l₂ λ g r₃ l₃.
          removed-Settles g r₃ (sh.remove g id r₃.shelf).0 (sh.remove g id r₃.shelf).1 l₃
            (laws.remove_only g id r₃.shelf) (laws.remove_taken g id r₃.shelf)

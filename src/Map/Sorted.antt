-- ===== src/Map/Sorted.antt =====
-- Maps in the strict order of their keys, as every map of the program is: each key stands once.
use Prim.Native.Nat.{Ordering}
use passalong_server.Base.{
  ℕ, ◌+◌, ◌≡◌, refl, sym, subst, ◌⊎◌, inl, inr, Bool, [], ◌∷◌, Option, none, some, arith, true,
}
use passalong_server.Map.{Ord, Map, get, insert, remove, retain}

pub Ordering-cases : (x : Ordering) → (x ≡ Ordering.lt) ⊎ ((x ≡ Ordering.eq) ⊎ (x ≡ Ordering.gt))
Ordering-cases Ordering.lt = inl refl
Ordering-cases Ordering.eq = inr (inl refl)
Ordering-cases Ordering.gt = inr (inr refl)

module _ {ℓ κ} {K : Type ℓ} {V : Type κ} ⦃o : Ord K⦄ where
  -- `k` stands before the first key.
  abbrev pub Before : K → Map K V → Type 0
  Before k [] = Unit {0}
  Before k ((j, v) ∷ m) = o.cmp k j ≡ Ordering.lt

  abbrev pub IsSorted : Map K V → Type 0
  IsSorted [] = Unit {0}
  IsSorted ((k, v) ∷ m) = Before k m × IsSorted m

  pub get-Before : (k : K) (m : Map K V) → Before k m → IsSorted m → get k m ≡ none
  unfolding get
  get-Before k [] b s = refl
  get-Before k ((j, v) ∷ []) b s = ground arith
  get-Before k ((j, v) ∷ (i, w) ∷ m) b s =
      ground (arith, get-Before k ((i, w) ∷ m) (o.cmp_trans k j i b s.0) s.1)

  pub get-remove_self : (k : K) (m : Map K V) → IsSorted m → get k (remove k m) ≡ none
  unfolding get remove
  get-remove_self k [] s = refl
  get-remove_self k ((j, v) ∷ m) s =
      ground (arith, o.cmp_eq k j, get-remove_self k m s.1, get-Before j m s.0 s.1)

  Before-insert :
      (i k : K) (v : V) (m : Map K V)
      → o.cmp i k ≡ Ordering.lt
      → Before i m
      → Before i (insert k v m)
  unfolding insert
  Before-insert i k v [] h b = h
  Before-insert i k v ((j, w) ∷ m) h b = ground arith

  pub insert-IsSorted : (k : K) (v : V) (m : Map K V) → IsSorted m → IsSorted (insert k v m)
  unfolding insert
  insert-IsSorted k v [] s = (tt, tt)
  insert-IsSorted k v ((j, w) ∷ m) s = elim (Ordering-cases (o.cmp k j)) [
    | inl lt ↦ rw (lt, insert) (lt, s)
    | inr (inl eq) ↦ rw (eq, insert) (subst (λ i. Before i m) (sym ((o.cmp_eq k j).0 eq)) s.0, s.1)
    | inr (inr gt) ↦
        rw (gt, insert) (Before-insert j k v m (o.cmp_flop k j gt) s.0, insert-IsSorted k v m s.1)
  ]

  -- A key before the first one is before every later one.
  pub Before-mono : (i j : K) (m : Map K V) → o.cmp i j ≡ Ordering.lt → Before j m → Before i m
  Before-mono i j [] h b = tt
  Before-mono i j ((k, v) ∷ m) h b = o.cmp_trans i j k h b

  Before-remove : (i k : K) (m : Map K V) → Before i m → IsSorted m → Before i (remove k m)
  unfolding remove
  Before-remove i k [] b s = tt
  Before-remove i k ((j, v) ∷ m) b s = ground (arith, Before-mono i j m b s.0)

  pub remove-IsSorted : (k : K) (m : Map K V) → IsSorted m → IsSorted (remove k m)
  unfolding remove
  remove-IsSorted k [] s = tt
  remove-IsSorted k ((j, v) ∷ m) s = elim (Ordering-cases (o.cmp k j)) [
    | inl lt ↦ rw (lt, remove) (Before-remove j k m s.0 s.1, remove-IsSorted k m s.1)
    | inr (inl eq) ↦ rw (eq, remove) s.1
    | inr (inr gt) ↦ rw (gt, remove) (Before-remove j k m s.0 s.1, remove-IsSorted k m s.1)
  ]

  Before-retain :
      (i : K) (p : K → V → Bool) (m : Map K V) → Before i m → IsSorted m → Before i (retain p m)
  unfolding retain
  Before-retain i p [] b s = tt
  Before-retain i p ((j, v) ∷ m) b s =
      ground (arith, Before-retain i p m (Before-mono i j m b s.0) s.1)

  pub retain-IsSorted : (p : K → V → Bool) (m : Map K V) → IsSorted m → IsSorted (retain p m)
  unfolding retain
  retain-IsSorted p [] s = tt
  retain-IsSorted p ((j, v) ∷ m) s =
      ground (arith, retain-IsSorted p m s.1, Before-retain j p m s.0 s.1)

  pub get-retain :
      (p : K → V → Bool) (k : K) (v : V) (m : Map K V)
      → IsSorted m
      → get k m ≡ some v
      → p k v ≡ true
      → get k (retain p m) ≡ some v
  unfolding get retain
  get-retain p k v [] s h t = ground arith
  get-retain p k v ((j, w) ∷ m) s h t = elim (Ordering-cases (o.cmp k j)) [
    | inl lt ↦ ground (arith, lt, get-retain p k v m s.1)
    | inr (inl eq) ↦ ground (arith, eq, (o.cmp_eq k j).0 eq)
    | inr (inr gt) ↦ ground (arith, gt, get-retain p k v m s.1)
  ]

-- The sum of a measure over the values.
module _ {κ} {V : Type κ} (size : V → ℕ) where
  unfoldable pub weight : Option V → ℕ
  weight none = 0
  weight (some v) = size v

  unfoldable pub total {ℓ} : {K : Type ℓ} → Map K V → ℕ
  total [] = 0
  total ((j, v) ∷ m) = size v + total m

module _ {ℓ κ} {K : Type ℓ} {V : Type κ} ⦃o : Ord K⦄ (size : V → ℕ) where
  pub total-remove :
      (k : K) (m : Map K V) → total size (remove k m) + weight size (get k m) ≡ total size m
  unfolding total weight remove get
  total-remove k [] = omega arith
  total-remove k ((j, w) ∷ m) = ground (arith, total-remove k m)

  pub total-insert :
      (k : K) (v : V) (m : Map K V)
      → IsSorted m
      → total size (insert k v m) + weight size (get k m) ≡ total size m + size v
  unfolding total weight insert get
  total-insert k v [] s = omega arith
  total-insert k v ((j, w) ∷ m) s = elim (Ordering-cases (o.cmp k j)) [
    | inl lt ↦ rw (lt, insert, get, get-Before k m (Before-mono k j m lt s.0) s.1) (omega arith)
    | inr (inl eq) ↦ rw (eq, insert, get) (omega arith)
    | inr (inr gt) ↦ rw (gt, insert, get) (omega (arith, total-insert k v m s.1))
  ]

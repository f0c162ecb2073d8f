-- ===== src/Map/Entries.antt =====
-- How many entries an update leaves in a map, and what holds of all of them.
use passalong_server.Base.{
  suc, ◌≤◌, ◌<◌, ◌≡◌, Bool, true, [], ◌∷◌, some, arith, length, All, inl, inr,
}
use passalong_server.Map.Laws.{get-contains_key}
use passalong_server.Map.Sorted.{Ordering-cases, IsSorted, Before-mono, get-Before}
use passalong_server.Map.{Ord, Map, get, contains_key, insert, remove, retain}

module _ {ℓ κ} {K : Type ℓ} {V : Type κ} ⦃o : Ord K⦄ where
  pub length-insert : (k : K) (v : V) (m : Map K V) → length (insert k v m) ≤ suc (length m)
  unfolding insert
  length-insert k v [] = omega arith
  length-insert k v ((j, w) ∷ m) = ground (arith, length-insert k v m)

  -- A key that is there takes no new entry.
  pub length-insert_known :
      (k : K) (v : V) (m : Map K V)
      → IsSorted m
      → contains_key k m ≡ true
      → length (insert k v m) ≡ length m
  unfolding insert contains_key
  length-insert_known k v [] s h = ground arith
  length-insert_known k v ((j, w) ∷ m) s h = elim (Ordering-cases (o.cmp k j)) [
    | inl lt ↦
        let before = Before-mono k j m lt s.0 in
        ground (arith, lt, get-contains_key k m (get-Before k m before s.1))
    | inr (inl eq) ↦ ground (arith, eq)
    | inr (inr gt) ↦ ground (arith, gt, length-insert_known k v m s.1)
  ]

  pub length-remove : (k : K) (m : Map K V) → length (remove k m) ≤ length m
  unfolding remove
  length-remove k [] = omega arith
  length-remove k ((j, w) ∷ m) = ground (arith, length-remove k m)

  pub length-remove_known :
      (k : K) (m : Map K V) → contains_key k m ≡ true → length (remove k m) < length m
  unfolding remove contains_key
  length-remove_known k [] h = ground arith
  length-remove_known k ((j, w) ∷ m) h = ground (arith, length-remove_known k m)

  pub length-retain : (p : K → V → Bool) (m : Map K V) → length (retain p m) ≤ length m
  unfolding retain
  length-retain p [] = omega arith
  length-retain p ((j, w) ∷ m) = ground (arith, length-retain p m)

-- What holds of every value.
module _ {ℓ κ λ'} {K : Type ℓ} {V : Type κ} ⦃o : Ord K⦄ (P : V → Type λ') where
  abbrev pub AllValues : Map K V → Type λ'
  AllValues m = All (λ e. P e.1) m

  pub insert-AllValues :
      (k : K) (v : V) (m : Map K V) → P v → AllValues m → AllValues (insert k v m)
  unfolding insert
  insert-AllValues k v [] p ps = (p, tt)
  insert-AllValues k v ((j, w) ∷ m) p ps = ground (arith, insert-AllValues k v m p ps.1)

  pub remove-AllValues : (k : K) (m : Map K V) → AllValues m → AllValues (remove k m)
  unfolding remove
  remove-AllValues k [] ps = tt
  remove-AllValues k ((j, w) ∷ m) ps = ground (arith, remove-AllValues k m ps.1)

  pub retain-AllValues : (p : K → V → Bool) (m : Map K V) → AllValues m → AllValues (retain p m)
  unfolding retain
  retain-AllValues p [] ps = tt
  retain-AllValues p ((j, w) ∷ m) ps = ground (arith, retain-AllValues p m ps.1)

  pub get-AllValues : (k : K) (m : Map K V) (v : V) → AllValues m → get k m ≡ some v → P v
  unfolding get
  get-AllValues k [] v ps h = ground arith
  get-AllValues k ((j, w) ∷ m) v ps h = ground (arith, get-AllValues k m v ps.1)

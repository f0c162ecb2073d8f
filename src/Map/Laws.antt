-- ===== src/Map/Laws.antt =====
-- Lookups after an update, in any map; and in a sorted one, what an update leaves of the order and
-- of a sum over the values.
use Prim.Native.Nat.{Ordering}
use passalong_server.Base.{◌≡◌, refl, ◌≢◌, true, false, [], ◌∷◌, none, some, arith, Bool}
use passalong_server.Map.{Ord, Map, get, contains_key, insert, remove, retain}

pub cmp_refl {ℓ} : {K : Type ℓ} ⦃o : Ord K⦄ (k : K) → o.cmp k k ≡ Ordering.eq
cmp_refl ⦃o⦄ k = (o.cmp_eq k k).1 refl

module _ {ℓ κ} {K : Type ℓ} {V : Type κ} ⦃o : Ord K⦄ where
  pub get-insert_self : (k : K) (v : V) (m : Map K V) → get k (insert k v m) ≡ some v
  unfolding get insert
  get-insert_self k v [] = ground (arith, cmp_refl k)
  get-insert_self k v ((j, w) ∷ m) = ground (arith, cmp_refl k, get-insert_self k v m)

  pub get-insert_ne : (k j : K) (v : V) (m : Map K V) → j ≢ k → get j (insert k v m) ≡ get j m
  unfolding get insert
  get-insert_ne k j v [] h = ground (arith, o.cmp_eq j k)
  get-insert_ne k j v ((i, w) ∷ m) h =
      ground (arith, o.cmp_eq j k, o.cmp_eq k i, o.cmp_eq j i, get-insert_ne k j v m h)

  pub get-remove_ne : (k j : K) (m : Map K V) → j ≢ k → get j (remove k m) ≡ get j m
  unfolding get remove
  get-remove_ne k j [] h = refl
  get-remove_ne k j ((i, w) ∷ m) h =
      ground (arith, o.cmp_eq k i, o.cmp_eq j i, get-remove_ne k j m h)

  pub contains_key-get : (k : K) (m : Map K V) → contains_key k m ≡ false → get k m ≡ none
  unfolding contains_key get
  contains_key-get k [] h = refl
  contains_key-get k ((j, w) ∷ m) h = ground (arith, contains_key-get k m)

  pub get-known : (k : K) (m : Map K V) (v : V) → get k m ≡ some v → contains_key k m ≡ true
  unfolding get contains_key
  get-known k [] v h = ground arith
  get-known k ((j, w) ∷ m) v h = ground (arith, get-known k m v)

  pub get-contains_key : (k : K) (m : Map K V) → get k m ≡ none → contains_key k m ≡ false
  unfolding contains_key get
  get-contains_key k [] h = refl
  get-contains_key k ((j, w) ∷ m) h = ground (arith, get-contains_key k m)

  -- A key that is not there is not there after entries have gone.
  pub get-remove_none : (k j : K) (m : Map K V) → get k m ≡ none → get k (remove j m) ≡ none
  unfolding get remove
  get-remove_none k j [] h = refl
  get-remove_none k j ((i, w) ∷ m) h = ground (arith, get-remove_none k j m)

  pub get-retain-none :
      (p : K → V → Bool) (k : K) (m : Map K V) → get k m ≡ none → get k (retain p m) ≡ none
  unfolding get retain
  get-retain-none p k [] h = refl
  get-retain-none p k ((i, w) ∷ m) h = ground (arith, get-retain-none p k m)

  pub contains_key-insert : (k : K) (v : V) (m : Map K V) → contains_key k (insert k v m) ≡ true
  unfolding contains_key insert
  contains_key-insert k v [] = ground (arith, cmp_refl k)
  contains_key-insert k v ((j, w) ∷ m) = ground (arith, cmp_refl k, contains_key-insert k v m)

  pub contains_key-insert_more :
      (k j : K) (v : V) (m : Map K V)
      → contains_key k m ≡ true
      → contains_key k (insert j v m) ≡ true
  unfolding contains_key insert
  contains_key-insert_more k j v [] h = ground arith
  contains_key-insert_more k j v ((i, w) ∷ m) h =
      ground (arith, o.cmp_eq j i, o.cmp_eq k i, contains_key-insert_more k j v m, h)

  -- What is kept of a map is still found in it.
  pub get-retain :
      (p : V → Bool) (k : K) (v : V) (m : Map K V)
      → get k m ≡ some v
      → p v ≡ true
      → get k (retain (λ _ w. p w) m) ≡ some v
  unfolding get retain
  get-retain p k v [] h kept = ground arith
  get-retain p k v ((j, w) ∷ m) h kept = ground (arith, o.cmp_eq k j, get-retain p k v m, h, kept)

-- ===== src/Ids/Draws.antt =====
-- Candidates that are drawn until one is free: how many can be taken.
use passalong_server.Base.{
  ℕ, zero, suc, ◌+◌, ◌≤◌, ◌<◌, ◌≡◌, ◌≢◌, Bool, true, List, [], ◌∷◌, arith, any, holds, length,
  if◌then◌else◌,
}
use passalong_server.Ids.{Text, Text-discrete}

abbrev pub has : Text → List Text → Bool
has c ks = any (λ k. holds (Text-discrete k c)) ks

-- The list with one occurrence less.
abbrev erase : Text → List Text → List Text
erase c [] = []
erase c (k ∷ ks) = let rest = erase c ks in if holds (Text-discrete k c) then ks else k ∷ rest

length-erase : (c : Text) (ks : List Text) → has c ks ≡ true → suc (length (erase c ks)) ≡ length ks
length-erase c [] h = ground arith
length-erase c (k ∷ ks) h = ground (arith, length-erase c ks)

has-erase : (c d : Text) (ks : List Text) → d ≢ c → has d ks ≡ true → has d (erase c ks) ≡ true
has-erase c d [] n h = ground arith
has-erase c d (k ∷ ks) n h = ground (arith, has-erase c d ks n)

module _ (candidate : ℕ → Text) where
  -- The source gives no id twice in `fuel` draws from the n-th on.
  abbrev pub IsFresh : ℕ → ℕ → Type 0
  IsFresh n fuel =
      (i j : ℕ) → n ≤ i → i < n + fuel → n ≤ j → j < n + fuel → candidate i ≡ candidate j → i ≡ j

  -- Candidates that are all in a list, and all different, are no more than the list is long.
  pub crowded :
      (fuel n : ℕ) (ks : List Text)
      → IsFresh n fuel
      → ((i : ℕ) → n ≤ i → i < n + fuel → has (candidate i) ks ≡ true)
      → fuel ≤ length ks
  crowded zero n ks fresh h = omega arith
  crowded (suc fuel) n ks fresh h =
      let first = length-erase (candidate n) ks (h n (omega arith) (omega arith)) in
      let rest =
        crowded fuel (suc n) (erase (candidate n) ks)
          (λ i j a b c d. fresh i j (omega arith) (omega arith) (omega arith) (omega arith))
          λ i above below.
            has-erase (candidate n) (candidate i) ks
              (λ e.
                let same = fresh i n (omega arith) (omega arith) (omega arith) (omega arith) e in
                omega arith)
              (h i (omega arith) (omega arith)) in
      omega arith

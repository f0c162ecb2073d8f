-- ===== src/Map/Order.antt =====
-- The orders of the keys: numbers, and texts byte by byte (`Ord` of `u64` and of `String`).
use Prim.Native.Nat.{ℕ, compare, Ordering}
use passalong_server.Base.{◌≡◌, refl, subst, List, [], ◌∷◌, ◌↔◌, arith}
use passalong_server.Map.{Ord}

abbrev pub compare_text : List ℕ → List ℕ → Ordering
compare_text [] [] = Ordering.eq
compare_text [] (b ∷ bs) = Ordering.lt
compare_text (a ∷ as') [] = Ordering.gt
compare_text (a ∷ as') (b ∷ bs) = elim (compare a b) [
  | Ordering.lt ↦ Ordering.lt
  | Ordering.eq ↦ compare_text as' bs
  | Ordering.gt ↦ Ordering.gt
]

pub compare_eq : (a b : ℕ) → (compare a b ≡ Ordering.eq) ↔ (a ≡ b)
compare_eq a b = ground arith

pub compare_flip : (a b : ℕ) → compare a b ≡ Ordering.lt → compare b a ≡ Ordering.gt
compare_flip a b h = ground arith

pub compare_flop : (a b : ℕ) → compare a b ≡ Ordering.gt → compare b a ≡ Ordering.lt
compare_flop a b h = ground arith

pub compare_trans :
    (a b c : ℕ) → compare a b ≡ Ordering.lt → compare b c ≡ Ordering.lt → compare a c ≡ Ordering.lt
compare_trans a b c h k = ground arith

text_eq_of : (s t : List ℕ) → compare_text s t ≡ Ordering.eq → s ≡ t
text_eq_of [] [] h = refl
text_eq_of [] (b ∷ bs) h = cc
text_eq_of (a ∷ r) [] h = cc
text_eq_of (a ∷ r) (b ∷ bs) h = ground (arith, text_eq_of r bs)

text_refl : (s : List ℕ) → compare_text s s ≡ Ordering.eq
text_refl [] = refl
text_refl (a ∷ r) = ground (arith, text_refl r)

pub compare_text_eq : (s t : List ℕ) → (compare_text s t ≡ Ordering.eq) ↔ (s ≡ t)
compare_text_eq s t =
    (text_eq_of s t, λ e. subst (λ u. compare_text s u ≡ Ordering.eq) e (text_refl s))

pub compare_text_flip :
    (s t : List ℕ) → compare_text s t ≡ Ordering.lt → compare_text t s ≡ Ordering.gt
compare_text_flip [] [] h = cc
compare_text_flip [] (b ∷ bs) h = refl
compare_text_flip (a ∷ r) [] h = cc
compare_text_flip (a ∷ r) (b ∷ bs) h = ground (arith, compare_text_flip r bs)

pub compare_text_flop :
    (s t : List ℕ) → compare_text s t ≡ Ordering.gt → compare_text t s ≡ Ordering.lt
compare_text_flop [] [] h = cc
compare_text_flop [] (b ∷ bs) h = cc
compare_text_flop (a ∷ r) [] h = refl
compare_text_flop (a ∷ r) (b ∷ bs) h = ground (arith, compare_text_flop r bs)

pub compare_text_trans :
    (s t u : List ℕ)
    → compare_text s t ≡ Ordering.lt
    → compare_text t u ≡ Ordering.lt
    → compare_text s u ≡ Ordering.lt
compare_text_trans [] [] u h k = cc
compare_text_trans [] (b ∷ bs) [] h k = cc
compare_text_trans [] (b ∷ bs) (c ∷ cs) h k = refl
compare_text_trans (a ∷ r) [] u h k = cc
compare_text_trans (a ∷ r) (b ∷ bs) [] h k = cc
compare_text_trans (a ∷ r) (b ∷ bs) (c ∷ cs) h k = ground (arith, compare_text_trans r bs cs)

instance abbrev pub nat_ord : Ord ℕ
nat_ord = record {
  cmp = compare;
  cmp_eq = compare_eq;
  cmp_flip = compare_flip;
  cmp_flop = compare_flop;
  cmp_trans = compare_trans;
}

instance abbrev pub text_ord : Ord (List ℕ)
text_ord = record {
  cmp = compare_text;
  cmp_eq = compare_text_eq;
  cmp_flip = compare_text_flip;
  cmp_flop = compare_text_flop;
  cmp_trans = compare_text_trans;
}

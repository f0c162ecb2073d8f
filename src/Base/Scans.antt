-- ===== src/Base/Scans.antt =====
-- Tests on every entry of a list, on some entry, and on each two of them, after `filter`, `map` and an
-- entry at the end.
use mathlib.Core.Path.{◌≡◌, refl}
use mathlib.Core.Bool.{Bool, true, false, not, ◌&&◌, ◌||◌}
use mathlib.Core.List.{List, [], ◌∷◌, ◌++◌, map}
use native.Mathlib.Omega.{arith}
use passalong_server.Base.Lists.{all, any, filter}

pub all-filter {ℓ} :
    {A : Type ℓ} (p q : A → Bool) (rows : List A) → all p rows ≡ true → all p (filter q rows) ≡ true
all-filter p q [] h = refl
all-filter p q (row ∷ rows) h = ground (arith, all-filter p q rows)

pub all-snoc {ℓ} :
    {A : Type ℓ} (p : A → Bool) (rows : List A) (row : A)
    → all p rows ≡ true
    → p row ≡ true
    → all p (rows ++ row ∷ []) ≡ true
all-snoc p [] row h k = ground arith
all-snoc p (other ∷ rows) row h k = ground (arith, all-snoc p rows row)

pub all-map {ℓ} :
    {A : Type ℓ} (p : A → Bool) (f : A → A) (rows : List A)
    → ((row : A) → p row ≡ true → p (f row) ≡ true)
    → all p rows ≡ true
    → all p (map f rows) ≡ true
all-map p f [] step h = refl
all-map p f (row ∷ rows) step h = ground (arith, step row, all-map p f rows step)

-- No two rows are the same by a test.
abbrev pub distinct {ℓ} : {A : Type ℓ} → (A → A → Bool) → List A → Bool
distinct same [] = true
distinct same (row ∷ rows) = not (any (λ other. same other row) rows) && distinct same rows

pub any-snoc {ℓ} :
    {A : Type ℓ} (p : A → Bool) (rows : List A) (row : A)
    → any p (rows ++ row ∷ []) ≡ any p rows || p row
any-snoc p [] row = ground arith
any-snoc p (other ∷ rows) row = ground (arith, any-snoc p rows row)

pub distinct-snoc {ℓ} :
    {A : Type ℓ} (same : A → A → Bool) (rows : List A) (row : A)
    → ((a b : A) → same a b ≡ same b a)
    → distinct same rows ≡ true
    → any (λ other. same other row) rows ≡ false
    → distinct same (rows ++ row ∷ []) ≡ true
distinct-snoc same [] row swap h k = refl
distinct-snoc same (other ∷ rows) row swap h k = ground (
  arith,
  h,
  k,
  swap other row,
  any-snoc (λ r. same r other) rows row,
  distinct-snoc same rows row swap,
)

pub any-filter {ℓ} :
    {A : Type ℓ} (p q : A → Bool) (rows : List A)
    → any p rows ≡ false
    → any p (filter q rows) ≡ false
any-filter p q [] h = h
any-filter p q (row ∷ rows) h = ground (arith, any-filter p q rows)

pub distinct-filter {ℓ} :
    {A : Type ℓ} (same : A → A → Bool) (q : A → Bool) (rows : List A)
    → distinct same rows ≡ true
    → distinct same (filter q rows) ≡ true
distinct-filter same q [] h = h
distinct-filter same q (row ∷ rows) h =
    ground (arith, h, any-filter (λ other. same other row) q rows, distinct-filter same q rows)

pub any-map {ℓ} :
    {A : Type ℓ} (p r : A → Bool) (f : A → A) (rows : List A)
    → ((a : A) → p (f a) ≡ r a)
    → any p (map f rows) ≡ any r rows
any-map p r f [] h = refl
any-map p r f (row ∷ rows) h = rw (h row, any-map p r f rows h) refl

pub distinct-map {ℓ} :
    {A : Type ℓ} (same : A → A → Bool) (f : A → A) (rows : List A)
    → ((a b : A) → same (f a) (f b) ≡ same a b)
    → distinct same (map f rows) ≡ distinct same rows
distinct-map same f [] h = refl
distinct-map same f (row ∷ rows) h =
    rw
      (
        any-map (λ other. same other (f row)) (λ other. same other row) f rows (λ a. h a row),
        distinct-map same f rows h,
      )
      refl

-- ===== src/Rules/Keeps.antt =====
-- What holds of a rule's state before and after a step, refusals included, along a do block.
use passalong_server.Base.{◌≡◌, refl, Bool, true, false, if◌then◌else◌}
use passalong_server.Error.{Result, ok, err, spins}
use passalong_server.Rules.{M, Rules, and_then}

module _ {S A B : Type 0} (P : Rules S → Type 0) where
  -- The rest of a do block keeps what its first step leaves.
  pub and_then-keeps :
      (x : Result A × Rules S) (f : A → M S B)
      → P x.1
      → ((a : A) (r : Rules S) → P r → P (f a r).1)
      → P (and_then x f).1
  unfolding and_then
  and_then-keeps (ok a, r) f p h = h a r p
  and_then-keeps (err e, r) f p h = p
  and_then-keeps (spins, r) f p h = p

  -- The same where the rest turns one predicate into another.
  pub and_then-leads :
      (Q : Rules S → Type 0) (x : Result A × Rules S) (f : A → M S B)
      → ((r : Rules S) → P r → Q r)
      → P x.1
      → ((a : A) (r : Rules S) → P r → Q (f a r).1)
      → Q (and_then x f).1
  unfolding and_then
  and_then-leads Q (ok a, r) f weaken p h = h a r p
  and_then-leads Q (err e, r) f weaken p h = weaken r p
  and_then-leads Q (spins, r) f weaken p h = weaken r p

  -- A first step that only looks, and what it saw.
  pub and_then-same :
      (x : Result A) (r : Rules S) (f : A → M S B)
      → P r
      → ((a : A) → x ≡ ok a → P (f a r).1)
      → P (and_then (x, r) f).1
  unfolding and_then
  and_then-same (ok a) r f p h = h a refl
  and_then-same (err e) r f p h = p
  and_then-same spins r f p h = p

module _ {S A : Type 0} (P : Rules S → Type 0) where
  pub if-keeps :
      (b : Bool) (m n : M S A) (r : Rules S) → P (m r).1 → P (n r).1 → P ((if b then m else n) r).1
  if-keeps true m n r p q = p
  if-keeps false m n r p q = q

-- ===== src/Rules/Post.antt =====
-- What holds of an answer and of the state beside it, along a do block; of a refusal it says nothing.
use passalong_server.Base.{◌≡◌, refl, Bool, true, false, if◌then◌else◌, arith}
use passalong_server.Error.{Result, ok, err, spins}
use passalong_server.Rules.{M, Rules, and_then}

abbrev pub Post : {S A : Type 0} → (A → Rules S → Type 0) → Result A × Rules S → Type 0
Post Q (ok a, r) = Q a r
Post Q (err e, r) = Unit {0}
Post Q (spins, r) = Unit {0}

pub and_then-Post :
    {S A B : Type 0} (P : A → Rules S → Type 0) (Q : B → Rules S → Type 0) (x : Result A × Rules S)
    (f : A → M S B)
    → Post P x
    → ((a : A) (r : Rules S) → P a r → Post Q (f a r))
    → Post Q (and_then x f)
unfolding and_then
and_then-Post P Q (ok a, r) f p h = h a r p
and_then-Post P Q (err e, r) f p h = tt
and_then-Post P Q (spins, r) f p h = tt

-- The same where the first step only looks, with what it saw.
pub and_then-saw_Post :
    {S A B : Type 0} (Q : B → Rules S → Type 0) (x : Result A) (r : Rules S) (f : A → M S B)
    → ((a : A) → x ≡ ok a → Post Q (f a r))
    → Post Q (and_then (x, r) f)
unfolding and_then
and_then-saw_Post Q (ok a) r f h = h a refl
and_then-saw_Post Q (err e) r f h = tt
and_then-saw_Post Q spins r f h = tt

pub if-Post :
    {S A : Type 0} (Q : A → Rules S → Type 0) (b : Bool) (m n : M S A) (r : Rules S)
    → Post Q (m r)
    → Post Q (n r)
    → Post Q ((if b then m else n) r)
if-Post Q true m n r p q = p
if-Post Q false m n r p q = q

pub any_Post : {S A : Type 0} (x : Result A × Rules S) → Post (λ _ _. Unit {0}) x
any_Post (ok a, r) = tt
any_Post (err e, r) = tt
any_Post (spins, r) = tt

pub Post-holds :
    {S A : Type 0} (Q : A → Rules S → Type 0) (x : Result A × Rules S) (a : A)
    → x.0 ≡ ok a
    → Post Q x
    → Q a x.1
Post-holds Q (ok b, r) a h p = ground arith
Post-holds Q (err e, r) a h p = ground arith
Post-holds Q (spins, r) a h p = ground arith

-- What a step keeps, it leaves beside its answer.
pub keeps-Post :
    {S A : Type 0} (P : Rules S → Type 0) (x : Result A × Rules S) → P x.1 → Post (λ _ q. P q) x
keeps-Post P (ok a, r) p = p
keeps-Post P (err e, r) p = tt
keeps-Post P (spins, r) p = tt

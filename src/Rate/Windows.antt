-- ===== src/Rate/Windows.antt =====
-- `forget_old` and the counting of one failure, on one address's timestamps.
use passalong_server.Base.{ℕ, ◌≤◌, ◌≡◌, refl, List, [], ◌∷◌, arith, length, length-append}
use passalong_server.Rate.{forget_old, count}

pub length-forget_old :
    (failures : List ℕ) (now : ℕ) → length (forget_old failures now) ≤ length failures
unfolding forget_old
length-forget_old [] now = omega arith
length-forget_old (at ∷ failures) now = ground (arith, length-forget_old failures now)

-- What is left is looked at again with the same outcome, and a later look forgets as much as
-- without the earlier one.
pub forget_old-twice :
    (failures : List ℕ) (now later : ℕ)
    → now ≤ later
    → forget_old (forget_old failures now) later ≡ forget_old failures later
unfolding forget_old
forget_old-twice [] now later h = refl
forget_old-twice (at ∷ failures) now later h = ground (arith, forget_old-twice failures now later h)

pub length-count :
    (per_minute : ℕ) (failures : List ℕ) (now : ℕ)
    → length failures ≤ per_minute
    → length (count per_minute failures now) ≤ per_minute
length-count per_minute failures now h =
    ground
      (arith, length-forget_old failures now, length-append (forget_old failures now) (now ∷ []))

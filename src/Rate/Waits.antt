-- ===== src/Rate/Waits.antt =====
-- The wait that a limited address is told, and a look at an entry.
use passalong_server.Map
use passalong_server.Rate.Windows.{length-forget_old}
use passalong_server.Rate.{
  address_ord, forget_old, window, wait_of, FailureLimiter, IpAddr, look_up, put_left,
}
use passalong_server.Base.{
  ℕ, ◌+◌, ◌-◌, ◌≤◌, ◌<◌, ◌≡◌, refl, List, [], ◌∷◌, none, some, arith, Option, if◌then◌else◌, length,
  ltb,
}

forget_old-first :
    (failures : List ℕ) (now oldest : ℕ) (rest : List ℕ)
    → forget_old failures now ≡ oldest ∷ rest
    → now < oldest + window
unfolding forget_old
forget_old-first [] now oldest rest h = ground arith
forget_old-first (at ∷ failures) now oldest rest h =
    ground (arith, forget_old-first failures now oldest rest)

-- The answer at a later time, from the answer now.
abbrev pub wait_later : ℕ → ℕ → Option ℕ
wait_later wait later = if ltb later wait then some (wait - later) else none

pub wait_of-later :
    (per_minute : ℕ) (failures : List ℕ) (oldest : ℕ) (rest : List ℕ) (now wait later : ℕ)
    → forget_old failures now ≡ oldest ∷ rest
    → length (oldest ∷ rest) ≤ per_minute
    → wait_of per_minute (oldest ∷ rest) now ≡ some wait
    → wait_of per_minute (forget_old (oldest ∷ rest) (now + later)) (now + later)
      ≡ wait_later wait later
unfolding forget_old
wait_of-later per_minute failures oldest rest now wait later e few h =
    let fresh = forget_old-first failures now oldest rest e in
    let fewer = length-forget_old rest (now + later) in
    let unlimited = wait_of-few per_minute (forget_old rest (now + later)) (now + later) in
    ground arith
  where
    wait_of-few :
        (many : ℕ) (left : List ℕ) (time : ℕ) → length left < many → wait_of many left time ≡ none
    wait_of-few many [] time below = refl
    wait_of-few many (at ∷ left) time below = ground arith

pub look_up-known :
    (limiter : FailureLimiter) (address : IpAddr) (now : ℕ) (failures : List ℕ)
    → Map.get address limiter.table ≡ some failures
    → look_up limiter address now ≡ (
      wait_of limiter.per_minute (forget_old failures now) now,
      record limiter { table = put_left address (forget_old failures now) limiter.table },
    )
look_up-known limiter address now failures e = rw (e, look_up) refl

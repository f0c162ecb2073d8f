-- ===== src/Rate/Patience.antt =====
-- The wait that a limited address is told is the wait that it has, while the table has room.
use passalong_server.Rate.Windows.{length-forget_old}
use passalong_server.Map.Entries.{get-AllValues}
use passalong_server.Rate.Waits.{wait_later, wait_of-later}
use passalong_server.Map
use passalong_server.Rate.Bounds.{IsShort, IsBounded}
use passalong_server.Rate.Counters.{
  watch, is_same, entry, limited-on, look_up-entry, watch_one, is_same_self, per_minute-after,
  after-HasRoom, per_minute-after_all, entry-after_all, entry-after,
}
use passalong_server.Rate.{
  IpAddr, FailureLimiter, Event, Table, looked, limited, counted_as, wait_of, forget_old, counted,
  after_all,
}
use passalong_server.Rate.{address_ord}
use passalong_server.Base.{
  refl, ◌≡◌, ℕ, List, ◌<◌, All, length, ◌≤◌, ◌+◌, false, ◌∷◌, Option-cases, some, ap, [], inl,
  arith, if◌then◌else◌, inr, ◌∙◌, ltb, subst, ◌-◌, none, sym,
}

-- The event is of another counter.
abbrev pub IsElsewhere : IpAddr → Event → Type 0
IsElsewhere address (looked a now) = is_same (counted_as address) (counted_as a) ≡ false
IsElsewhere address (counted a now) = is_same (counted_as address) (counted_as a) ≡ false

pub watch_one-elsewhere :
    (per_minute : ℕ) (address : IpAddr) (failures : List ℕ) (event : Event)
    → IsElsewhere address event
    → watch_one per_minute (counted_as address) failures event ≡ failures
watch_one-elsewhere per_minute address failures (looked a now) other = rw other refl
watch_one-elsewhere per_minute address failures (counted a now) other = rw other refl

watch-elsewhere :
    (per_minute : ℕ) (address : IpAddr) (failures : List ℕ) (events : List Event)
    → All (IsElsewhere address) events
    → watch per_minute (counted_as address) failures events ≡ failures
unfolding watch
watch-elsewhere per_minute address failures [] others = refl
watch-elsewhere per_minute address failures (looked a now ∷ events) others =
    rw others.0 (watch-elsewhere per_minute address failures events others.1)
watch-elsewhere per_minute address failures (counted a now ∷ events) others =
    rw others.0 (watch-elsewhere per_minute address failures events others.1)

entry-IsShort :
    (many : ℕ) (a : IpAddr) (table : Table) → IsShort many table → length (entry a table) ≤ many
entry-IsShort many a table short = elim (Option-cases (Map.get a table)) [
  | inl e ↦ rw e (omega arith)
  | inr (failures, e) ↦ rw e (get-AllValues (λ fs. length fs ≤ many) a table failures short e)
]

answer :
    (limiter : FailureLimiter) (address : IpAddr) (now : ℕ)
    → 0 < limiter.per_minute
    → (limited limiter address now).0
      ≡ wait_of limiter.per_minute (forget_old (entry (counted_as address) limiter.table) now) now
answer limiter address now on =
    ap (λ x. x.0) (limited-on limiter address now on)
    ∙ look_up-entry limiter (counted_as address) now

wait_left :
    (many : ℕ) (failures left : List ℕ) (now wait later : ℕ)
    → length failures ≤ many
    → forget_old failures now ≡ left
    → wait_of many left now ≡ some wait
    → wait_of many (forget_old left (now + later)) (now + later) ≡ wait_later wait later
wait_left many failures [] now wait later few e h = ground (arith, h)
wait_left many failures (oldest ∷ rest) now wait later few e h =
    wait_of-later many failures oldest rest now wait later e
      (subst (λ xs. length xs ≤ many) e (omega (arith, few, length-forget_old failures now))) h

-- An address that is told to wait, and asks again later, is answered with what is left of that wait
-- until it is over, and then is let through: the wait ends, and exactly when it was said to. In
-- between, other addresses may ask and fail, as long as they are no more events than the table has
-- places left, less one: an address that the table has no room for may be let through sooner.
pub limited-wait :
    (limiter : FailureLimiter) (address : IpAddr) (now wait later : ℕ) (events : List Event)
    → IsBounded limiter
    → 0 < limiter.per_minute
    → length limiter.table + length events < limiter.capacity
    → All (IsElsewhere address) events
    → (limited limiter address now).0 ≡ some wait
    → (limited (after_all (limited limiter address now).1 events) address (now + later)).0
      ≡ (if ltb later wait then some (wait - later) else none)
limited-wait limiter address now wait later events (some_room, fits, short, sorted) on room others
      h =
    let first = (limited limiter address now).1 in
    let many = per_minute-after limiter (looked address now) in
    let has =
      after-HasRoom limiter (looked address now) (length events)
        (on, omega (arith, room), sorted) in
    let same = per_minute-after_all first events ∙ many in
    let left = forget_old (entry (counted_as address) limiter.table) now in
    let kept : entry (counted_as address) (after_all first events).table ≡ left =
      entry-after_all first (counted_as address) events has
      ∙ (watch-elsewhere first.per_minute address (entry (counted_as address) first.table) events
            others
          ∙ (entry-after limiter (counted_as address) (looked address now) (length events)
                (on, omega (arith, room), sorted)
              ∙ own)) in
    answer (after_all first events) address (now + later) (omega (arith, same, on))
    ∙ (rw (same, kept)
        (wait_left limiter.per_minute (entry (counted_as address) limiter.table) left now wait later
          (entry-IsShort limiter.per_minute (counted_as address) limiter.table short) refl
          (sym (answer limiter address now on) ∙ h)))
  where
    own :
        watch_one limiter.per_minute
          (counted_as address)
          (entry (counted_as address) limiter.table)
          (looked address now)
        ≡ forget_old (entry (counted_as address) limiter.table) now
    own = rw (is_same_self (counted_as address)) refl

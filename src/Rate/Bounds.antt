-- ===== src/Rate/Bounds.antt =====
-- The limiter's table is bounded, in addresses and in each one's timestamps.
use passalong_server.Rate.Windows.{length-forget_old, length-count}
use passalong_server.Base.{
  ℕ, ◌≤◌, ◌<◌, ◌≡◌, true, List, [], ◌∷◌, arith, length, Option-cases, inl, inr, get_or, Bool-cases,
  ltb, ◌==◌,
}
use passalong_server.Map
use passalong_server.Map.{Map}
use passalong_server.Map.Entries.{
  AllValues, length-remove_known, length-retain, length-remove, remove-AllValues,
  length-insert_known, get-AllValues, insert-AllValues, retain-AllValues, length-insert,
}
use passalong_server.Map.Laws.{cmp_refl, get-known}
use passalong_server.Map.Sorted.{IsSorted, remove-IsSorted, insert-IsSorted, retain-IsSorted}
use passalong_server.Rate.{
  IpAddr, address_ord, Table, FailureLimiter, stalest_from, drop_stalest, make_room, is_recent,
  last_failure, put_left, look_up, limited, counted_as, forget_old, count_in, failed, after_all,
  Event, table_for, looked, new_limiter, count, counted,
}

-- Every entry has no more than `per_minute` timestamps.
abbrev pub IsShort : ℕ → Table → Type 0
IsShort per_minute table = AllValues (λ failures. length failures ≤ per_minute) table

abbrev pub IsBounded : FailureLimiter → Type 0
IsBounded limiter =
    (0 < limiter.capacity)
    × (length limiter.table ≤ limiter.capacity)
    × IsShort limiter.per_minute limiter.table
    × IsSorted limiter.table

-- The stalest address is one of the table.
contains_key-stalest_from :
    (best : IpAddr) (failures : List ℕ) (at : ℕ) (table : Table)
    → Map.contains_key (stalest_from best at table) ((best, failures) ∷ table) ≡ true
unfolding stalest_from Map.contains_key
contains_key-stalest_from best failures at [] = ground (arith, cmp_refl best)
contains_key-stalest_from best failures at ((address, others) ∷ table) = ground (
  arith,
  contains_key-stalest_from address others (last_failure others) table,
  contains_key-stalest_from best failures at table,
)

length-drop_stalest :
    (table : Table) → 0 < length table → length (drop_stalest table) < length table
length-drop_stalest [] h = ground arith
length-drop_stalest ((address, failures) ∷ table) h =
    length-remove_known (stalest_from address (last_failure failures) table)
      ((address, failures) ∷ table)
      (contains_key-stalest_from address failures (last_failure failures) table)

-- There is room after `make_room`.
pub length-make_room :
    (table : Table) (capacity now : ℕ)
    → 0 < capacity
    → length table ≤ capacity
    → length (make_room table capacity now) < capacity
unfolding make_room
length-make_room table capacity now some_room h = ground (
  arith,
  length-retain (λ _ failures. is_recent now failures) table,
  length-drop_stalest (Map.retain (λ _ failures. is_recent now failures) table),
)

put_left-IsBounded :
    (limiter : FailureLimiter) (address : IpAddr) (left : List ℕ)
    → IsBounded limiter
    → Map.contains_key address limiter.table ≡ true
    → length left ≤ limiter.per_minute
    → IsBounded (record limiter { table = put_left address left limiter.table })
put_left-IsBounded limiter address [] (some_room, fits, short, sorted) known few = (
  some_room,
  omega (arith, length-remove address limiter.table),
  remove-AllValues (λ failures. length failures ≤ limiter.per_minute) address limiter.table short,
  remove-IsSorted address limiter.table sorted,
)
put_left-IsBounded limiter address (at ∷ left) (some_room, fits, short, sorted) known few = (
  some_room,
  omega (arith, length-insert_known address (at ∷ left) limiter.table sorted known),
  insert-AllValues (λ failures. length failures ≤ limiter.per_minute) address (at ∷ left)
      limiter.table few short,
  insert-IsSorted address (at ∷ left) limiter.table sorted,
)

look_up-IsBounded :
    (limiter : FailureLimiter) (address : IpAddr) (now : ℕ)
    → IsBounded limiter
    → IsBounded (look_up limiter address now).1
look_up-IsBounded limiter address now (some_room, fits, short, sorted) =
    elim (Option-cases (Map.get address limiter.table)) [
      | inl e ↦ rw (e, look_up) (some_room, fits, short, sorted)
      | inr (failures, e) ↦
          let held =
            get-AllValues (λ fs. length fs ≤ limiter.per_minute) address limiter.table failures
              short e in
          rw (e, look_up)
            (put_left-IsBounded limiter address (forget_old failures now)
              (some_room, fits, short, sorted) (get-known address limiter.table failures e)
              (omega (arith, held, length-forget_old failures now)))
    ]

pub limited-IsBounded :
    (limiter : FailureLimiter) (address : IpAddr) (now : ℕ)
    → IsBounded limiter
    → IsBounded (limited limiter address now).1
unfolding limited
limited-IsBounded limiter address now b =
    ground (arith, look_up-IsBounded limiter (counted_as address) now b)

pub entry-IsShort :
    (per_minute : ℕ) (address : IpAddr) (table : Table)
    → IsShort per_minute table
    → length (get_or (Map.get address table) []) ≤ per_minute
entry-IsShort per_minute address table short = elim (Option-cases (Map.get address table)) [
  | inl e ↦ rw e (omega arith)
  | inr (failures, e) ↦
      rw e (get-AllValues (λ fs. length fs ≤ per_minute) address table failures short e)
]

count_in-IsBounded :
    (limiter : FailureLimiter) (address : IpAddr) (now : ℕ) (table : Table)
    → 0 < limiter.capacity
    → length (count_in limiter.per_minute address now table) ≤ limiter.capacity
    → IsShort limiter.per_minute table
    → IsSorted table
    → IsBounded (record limiter { table = count_in limiter.per_minute address now table })
count_in-IsBounded limiter address now table some_room fits short sorted = (
  some_room,
  fits,
  insert-AllValues (λ failures. length failures ≤ limiter.per_minute) address
      (count limiter.per_minute (get_or (Map.get address table) []) now) table
      (length-count limiter.per_minute (get_or (Map.get address table) []) now
        (entry-IsShort limiter.per_minute address table short))
      short,
  insert-IsSorted address (count limiter.per_minute (get_or (Map.get address table) []) now) table
      sorted,
)

-- `make_room` only takes entries away.
make_room-IsShort :
    (per_minute : ℕ) (table : Table) (capacity now : ℕ)
    → IsShort per_minute table × IsSorted table
    → IsShort per_minute (make_room table capacity now) × IsSorted (make_room table capacity now)
unfolding make_room
make_room-IsShort per_minute table capacity now (short, sorted) =
    let P : List ℕ → Type 0 = λ failures. length failures ≤ per_minute in
    let kept = Map.retain (λ _ failures. is_recent now failures) table in
    let kept_short = retain-AllValues P (λ _ failures. is_recent now failures) table short in
    let kept_sorted = retain-IsSorted (λ _ failures. is_recent now failures) table sorted in
    elim (Bool-cases (ltb (length kept) capacity)) [
      | inl e ↦ rw e (kept_short, kept_sorted)
      | inr e ↦ rw e (without_stalest kept (kept_short, kept_sorted))
    ]
  where
    without_stalest :
        (t : Table)
        → IsShort per_minute t × IsSorted t
        → IsShort per_minute (drop_stalest t) × IsSorted (drop_stalest t)
    without_stalest [] h = h
    without_stalest ((address, failures) ∷ t) (all_short, in_order) = (
      remove-AllValues (λ fs. length fs ≤ per_minute)
          (stalest_from address (last_failure failures) t) ((address, failures) ∷ t) all_short,
      remove-IsSorted (stalest_from address (last_failure failures) t) ((address, failures) ∷ t)
          in_order,
    )

-- A failure fits: its address has an entry, or the table has room, or room is made.
length-failed :
    (limiter : FailureLimiter) (address : IpAddr) (now : ℕ)
    → IsBounded limiter
    → length (count_in limiter.per_minute address now (table_for limiter address now))
      ≤ limiter.capacity
length-failed limiter address now (some_room, fits, short, sorted) =
    elim (Bool-cases (Map.contains_key address limiter.table)) [
      | inl known ↦ ground (
        arith,
        known,
        length-insert_known address
            (count limiter.per_minute (get_or (Map.get address limiter.table) []) now) limiter.table
            sorted known,
      )
      | inr new ↦ ground (
        arith,
        new,
        length-make_room limiter.table limiter.capacity now some_room fits,
        length-insert address
            (count limiter.per_minute (get_or (Map.get address (table_for limiter address now)) [])
              now)
            (table_for limiter address now),
      )
    ]

pub failed-IsBounded :
    (limiter : FailureLimiter) (address : IpAddr) (now : ℕ)
    → IsBounded limiter
    → IsBounded (failed limiter address now)
unfolding failed
failed-IsBounded limiter address now (some_room, fits, short, sorted) =
    let a = counted_as address in
    let rest = table_for-IsShort a in
    elim (Bool-cases (limiter.per_minute == 0)) [
      | inl off ↦ rw off (some_room, fits, short, sorted)
      | inr on ↦ rw on (
          count_in-IsBounded limiter a now (table_for limiter a now) some_room
            (length-failed limiter a now (some_room, fits, short, sorted)) rest.0 rest.1)
    ]
  where
    table_for-IsShort :
        (a : IpAddr)
        → IsShort limiter.per_minute (table_for limiter a now) × IsSorted (table_for limiter a now)
    table_for-IsShort a = ground (
      arith,
      make_room-IsShort limiter.per_minute limiter.table limiter.capacity now (short, sorted),
    )

after_all-IsBounded :
    (limiter : FailureLimiter) (events : List Event)
    → IsBounded limiter
    → IsBounded (after_all limiter events)
unfolding after_all
after_all-IsBounded limiter [] b = b
after_all-IsBounded limiter (looked address now ∷ events) b =
    after_all-IsBounded (limited limiter address now).1 events
      (limited-IsBounded limiter address now b)
after_all-IsBounded limiter (counted address now ∷ events) b =
    after_all-IsBounded (failed limiter address now) events (failed-IsBounded limiter address now b)

-- Whatever a new limiter is asked and told, and whatever the clock does, it remembers no more
-- addresses than its capacity (one at least), and no more than `per_minute` timestamps of each.
pub new_limiter-IsBounded :
    (per_minute capacity : ℕ) (events : List Event)
    → IsBounded (after_all (new_limiter per_minute capacity) events)
new_limiter-IsBounded per_minute capacity events =
    after_all-IsBounded (new_limiter per_minute capacity) events (omega arith, omega arith, tt, tt)

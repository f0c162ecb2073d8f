-- ===== src/Rate/Counters.antt =====
-- A limiter with room is one counter for each address: what others do changes no answer.
use passalong_server.Map.Entries.{length-insert, length-remove}
use passalong_server.Rate.Waits.{look_up-known}
use Prim.Native.Nat.{Ordering}
use passalong_server.Map.Sorted.{IsSorted, get-remove_self, insert-IsSorted, remove-IsSorted}
use passalong_server.Map.Laws.{cmp_refl, get-insert_self, get-remove_ne, get-insert_ne}
use passalong_server.Base.{
  ℕ, ◌+◌, ◌≤◌, ◌<◌, ◌≡◌, refl, List, [], ◌∷◌, none, arith, ◌∙◌, ap, get_or, Bool, true,
  if◌then◌else◌, Bool-cases, inl, inr, ◌≢◌, false, length, Option-cases, suc, ◌==◌,
}
use passalong_server.Map
use passalong_server.Rate.{
  address_ord, IpAddr, Event, Table, looked, put_left, counted_as, forget_old, counted, count,
  FailureLimiter, limited, failed, look_up, table_for, count_in, after, after_all, wait_of,
  new_limiter,
}

-- The timestamps of one address, after an event and after several.
abbrev pub is_same : IpAddr → IpAddr → Bool
is_same a b = elim (address_ord.cmp a b) [ Ordering.eq ↦ true | _ ↦ false ]

abbrev pub watch_one : ℕ → IpAddr → List ℕ → Event → List ℕ
watch_one per_minute address failures (looked a now) =
    if is_same address (counted_as a) then forget_old failures now else failures
watch_one per_minute address failures (counted a now) =
    if is_same address (counted_as a) then count per_minute failures now else failures

unfoldable pub watch : ℕ → IpAddr → List ℕ → List Event → List ℕ
watch per_minute address failures [] = failures
watch per_minute address failures (event ∷ events) =
    watch per_minute address (watch_one per_minute address failures event) events

abbrev pub entry : IpAddr → Table → List ℕ
entry address table = get_or (Map.get address table) []

pub is_same_self : (a : IpAddr) → is_same a a ≡ true
is_same_self a = ground (arith, cmp_refl a)

pub is_same-eq : (a b : IpAddr) → is_same a b ≡ true → a ≡ b
is_same-eq a b h = ground (arith, address_ord.cmp_eq a b)

entry-put_left :
    (address other : IpAddr) (left : List ℕ) (table : Table)
    → IsSorted table
    → entry address (put_left other left table)
      ≡ (if is_same address other then left else entry address table)
entry-put_left address other left table sorted = elim (Bool-cases (is_same address other)) [
  | inl same ↦ rw (same, is_same-eq address other same) (own other left)
  | inr apart ↦ rw apart (others left (λ e. ground (arith, apart, e, is_same_self other)))
]
  where
    own : (a : IpAddr) (l : List ℕ) → entry a (put_left a l table) ≡ l
    own a [] = rw (get-remove_self a table sorted) refl
    own a (at ∷ l) = rw (get-insert_self a (at ∷ l) table) refl

    others :
        (l : List ℕ)
        → address ≢ other
        → entry address (put_left other l table) ≡ entry address table
    others [] n = ap (λ o. get_or o []) (get-remove_ne other address table n)
    others (at ∷ l) n = ap (λ o. get_or o []) (get-insert_ne other address (at ∷ l) table n)

pub entry-look_up :
    (limiter : FailureLimiter) (address a : IpAddr) (now : ℕ)
    → IsSorted limiter.table
    → entry address (look_up limiter a now).1.table ≡ (
        if is_same address a
        then forget_old (entry address limiter.table) now
        else entry address limiter.table)
unfolding forget_old
entry-look_up limiter address a now sorted = elim (Bool-cases (is_same address a)) [
  | inl same ↦ elim (Option-cases (Map.get a limiter.table)) [
    | inl e ↦ rw (same, is_same-eq address a same, e, look_up) (nothing e)
    | inr (failures, e) ↦
        rw (same, look_up-known limiter a now failures e)
          (rw (entry-put_left address a (forget_old failures now) limiter.table sorted, same)
            (rw (is_same-eq address a same, e) refl))
  ]
  | inr apart ↦ elim (Option-cases (Map.get a limiter.table)) [
    | inl e ↦ rw (apart, e, look_up) refl
    | inr (failures, e) ↦
        rw (apart, look_up-known limiter a now failures e)
          (rw (entry-put_left address a (forget_old failures now) limiter.table sorted, apart) refl)
  ]
]
  where
    nothing : Map.get a limiter.table ≡ none → entry a limiter.table ≡ []
    nothing e = rw e refl

pub limited-on :
    (limiter : FailureLimiter) (a : IpAddr) (now : ℕ)
    → 0 < limiter.per_minute
    → limited limiter a now ≡ look_up limiter (counted_as a) now
unfolding limited
limited-on limiter a now on = ground arith

table_for-room :
    (limiter : FailureLimiter) (a : IpAddr) (now : ℕ)
    → length limiter.table < limiter.capacity
    → table_for limiter a now ≡ limiter.table
table_for-room limiter a now room = ground arith

pub entry-count_in :
    (per_minute : ℕ) (address a : IpAddr) (now : ℕ) (table : Table)
    → entry address (count_in per_minute a now table) ≡ (
        if is_same address a
        then count per_minute (entry address table) now
        else entry address table)
entry-count_in per_minute address a now table = elim (Bool-cases (is_same address a)) [
  | inl same ↦
      rw
        (
          same,
          is_same-eq address a same,
          get-insert_self a (count per_minute (entry a table) now) table,
        )
        refl
  | inr apart ↦
      rw
        (
          apart,
          get-insert_ne a address (count per_minute (entry a table) now) table
              (λ e. ground (arith, apart, e, is_same_self a)),
        )
        refl
]

failed-on :
    (limiter : FailureLimiter) (a : IpAddr) (now : ℕ)
    → 0 < limiter.per_minute
    → length limiter.table < limiter.capacity
    → failed limiter a now
      ≡ record limiter { table = count_in limiter.per_minute (counted_as a) now limiter.table }
unfolding failed
failed-on limiter a now on room = ground arith

-- One event, of a limiter that has room for another address.
abbrev pub HasRoom : ℕ → FailureLimiter → Type 0
HasRoom events limiter =
    (0 < limiter.per_minute)
    × (length limiter.table + events ≤ limiter.capacity)
    × IsSorted limiter.table

look_up-HasRoom :
    (limiter : FailureLimiter) (a : IpAddr) (now events : ℕ)
    → HasRoom (suc events) limiter
    → HasRoom events (look_up limiter a now).1
look_up-HasRoom limiter a now events (on, room, sorted) =
    elim (Option-cases (Map.get a limiter.table)) [
      | inl e ↦ rw (e, look_up) (on, omega arith, sorted)
      | inr (failures, e) ↦
          rw (look_up-known limiter a now failures e) (put (forget_old failures now))
    ]
  where
    put :
        (left : List ℕ) → HasRoom events (record limiter { table = put_left a left limiter.table })
    put [] =
        (on, omega (arith, length-remove a limiter.table), remove-IsSorted a limiter.table sorted)
    put (at ∷ left) = (
      on,
      omega (arith, length-insert a (at ∷ left) limiter.table),
      insert-IsSorted a (at ∷ left) limiter.table sorted,
    )

pub after-HasRoom :
    (limiter : FailureLimiter) (event : Event) (events : ℕ)
    → HasRoom (suc events) limiter
    → HasRoom events (after limiter event)
after-HasRoom limiter (looked a now) events (on, room, sorted) =
    rw (limited-on limiter a now on, after)
      (look_up-HasRoom limiter (counted_as a) now events (on, room, sorted))
after-HasRoom limiter (counted a now) events (on, room, sorted) =
    rw (failed-on limiter a now on (omega arith), after)
      (
        on,
        omega (
          arith,
          length-insert (counted_as a)
              (count limiter.per_minute (entry (counted_as a) limiter.table) now) limiter.table,
        ),
        insert-IsSorted (counted_as a)
            (count limiter.per_minute (entry (counted_as a) limiter.table) now) limiter.table
            sorted,
      )

pub entry-after :
    (limiter : FailureLimiter) (address : IpAddr) (event : Event) (events : ℕ)
    → HasRoom (suc events) limiter
    → entry address (after limiter event).table
      ≡ watch_one limiter.per_minute address (entry address limiter.table) event
entry-after limiter address (looked a now) events (on, room, sorted) =
    rw (limited-on limiter a now on, after)
      (entry-look_up limiter address (counted_as a) now sorted)
entry-after limiter address (counted a now) events (on, room, sorted) =
    rw (failed-on limiter a now on (omega arith), after)
      (entry-count_in limiter.per_minute address (counted_as a) now limiter.table)

pub per_minute-after :
    (limiter : FailureLimiter) (event : Event)
    → (after limiter event).per_minute ≡ limiter.per_minute
unfolding limited failed
per_minute-after limiter (looked a now) = elim (Bool-cases (limiter.per_minute == 0)) [
  | inl off ↦ rw (off, after) refl
  | inr on ↦ elim (Option-cases (Map.get (counted_as a) limiter.table)) [
    | inl e ↦ rw (on, e, look_up, after) refl
    | inr (failures, e) ↦ rw (on, look_up-known limiter (counted_as a) now failures e, after) refl
  ]
]
per_minute-after limiter (counted a now) = ground arith

pub entry-after_all :
    (limiter : FailureLimiter) (address : IpAddr) (events : List Event)
    → HasRoom (length events) limiter
    → entry address (after_all limiter events).table
      ≡ watch limiter.per_minute address (entry address limiter.table) events
unfolding after_all watch
entry-after_all limiter address [] room = refl
entry-after_all limiter address (event ∷ events) room =
    entry-after_all (after limiter event) address events
      (after-HasRoom limiter event (length events) room)
    ∙ (ap (λ m. watch m address (entry address (after limiter event).table) events)
          (per_minute-after limiter event)
        ∙ ap (λ fs. watch limiter.per_minute address fs events)
            (entry-after limiter address event (length events) room))

pub look_up-entry :
    (limiter : FailureLimiter) (a : IpAddr) (now : ℕ)
    → (look_up limiter a now).0
      ≡ wait_of limiter.per_minute (forget_old (entry a limiter.table) now) now
unfolding forget_old
look_up-entry limiter a now = elim (Option-cases (Map.get a limiter.table)) [
  | inl e ↦ rw (e, look_up) refl
  | inr (failures, e) ↦ rw (look_up-known limiter a now failures e) (rw e refl)
]

pub per_minute-after_all :
    (limiter : FailureLimiter) (events : List Event)
    → (after_all limiter events).per_minute ≡ limiter.per_minute
unfolding after_all
per_minute-after_all limiter [] = refl
per_minute-after_all limiter (event ∷ events) =
    per_minute-after_all (after limiter event) events ∙ per_minute-after limiter event

-- Until a limiter has been asked and told more often than its table has places, its answer is that of
-- one counter for what the address is counted as.
pub limited-counter :
    (per_minute capacity : ℕ) (events : List Event) (address : IpAddr) (now : ℕ)
    → 0 < per_minute
    → length events ≤ capacity
    → (limited (after_all (new_limiter per_minute capacity) events) address now).0
      ≡ wait_of per_minute (forget_old (watch per_minute (counted_as address) [] events) now) now
unfolding Map.get
limited-counter per_minute capacity events address now on room =
    let started = new_limiter per_minute capacity in
    let same = per_minute-after_all started events in
    let found = entry-after_all started (counted_as address) events (on, omega arith, tt) in
    ap (λ x. x.0) (limited-on (after_all started events) address now (omega (arith, same, on)))
    ∙ (look_up-entry (after_all started events) (counted_as address) now ∙ rw (same, found) refl)

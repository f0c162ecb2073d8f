-- ===== src/Rate/Recent.antt =====
-- How many failures an entry holds from a time on.
use passalong_server.Map.Laws.{get-retain-none, contains_key-get, get-remove_none}
use passalong_server.Rate.Counters.{
  entry, limited-on, entry-look_up, is_same_self, look_up-entry, entry-count_in,
}
use passalong_server.Map.Sorted.{IsSorted}
use passalong_server.Rate.{
  address_ord, forget_old, window, FailureLimiter, make_room, failed, count, IpAddr, Table,
  drop_stalest, limited, counted_as, table_for, stalest_from, wait_of, last_failure, is_recent,
}
use passalong_server.Base.{
  ℕ, suc, ◌+◌, ◌≤◌, ◌<◌, ◌≡◌, refl, List, [], ◌∷◌, ◌++◌, none, arith, ◌∙◌, ap, get_or, filter, leb,
  length, lt→ltb, Bool-cases, inl, ◌==◌, sym, inr, ltb,
}
use passalong_server.Map

abbrev pub recent : ℕ → List ℕ → ℕ
recent since failures = length (filter (leb since) failures)

pub recent-length : (since : ℕ) (failures : List ℕ) → recent since failures ≤ length failures
recent-length since [] = omega arith
recent-length since (at ∷ failures) = ground (arith, recent-length since failures)

-- Nothing of the last minute is forgotten.
pub recent-forget_old :
    (since : ℕ) (failures : List ℕ) (now : ℕ)
    → now < since + window
    → recent since (forget_old failures now) ≡ recent since failures
unfolding forget_old
recent-forget_old since [] now h = refl
recent-forget_old since (at ∷ failures) now h =
    ground (arith, recent-forget_old since failures now h)

recent-snoc :
    (since : ℕ) (failures : List ℕ) (now : ℕ)
    → since ≤ now
    → recent since (failures ++ now ∷ []) ≡ suc (recent since failures)
recent-snoc since [] now h = ground arith
recent-snoc since (at ∷ failures) now h = ground (arith, recent-snoc since failures now h)

pub recent-count :
    (since per_minute : ℕ) (failures : List ℕ) (now : ℕ)
    → since ≤ now
    → now < since + window
    → length (forget_old failures now) < per_minute
    → recent since (count per_minute failures now) ≡ suc (recent since failures)
recent-count since per_minute failures now h k few =
    rw (lt→ltb (length (forget_old failures now)) per_minute few) (
      recent-snoc since (forget_old failures now) now h
      ∙ ap suc (recent-forget_old since failures now k))

-- The entry of an address after a look at it, and after a failure of it.
pub entry-limited :
    (limiter : FailureLimiter) (a : IpAddr) (now : ℕ)
    → 0 < limiter.per_minute
    → IsSorted limiter.table
    → entry (counted_as a) (limited limiter a now).1.table
      ≡ forget_old (entry (counted_as a) limiter.table) now
entry-limited limiter a now on sorted = rw (limited-on limiter a now on) (
    entry-look_up limiter (counted_as a) (counted_as a) now sorted
    ∙ rw (is_same_self (counted_as a)) refl)

make_room-none :
    (table : Table) (capacity now : ℕ) (a : IpAddr)
    → Map.get a table ≡ none
    → Map.get a (make_room table capacity now) ≡ none
unfolding make_room
make_room-none table capacity now a h =
    let kept = Map.retain (λ _ failures. is_recent now failures) table in
    let gone = get-retain-none (λ _ failures. is_recent now failures) a table h in
    elim (Bool-cases (ltb (length kept) capacity)) [
      | inl e ↦ rw e gone
      | inr e ↦ rw e (dropped kept gone)
    ]
  where
    dropped : (t : Table) → Map.get a t ≡ none → Map.get a (drop_stalest t) ≡ none
    dropped [] h = h
    dropped ((first, failures) ∷ t) h =
        get-remove_none a (stalest_from first (last_failure failures) t) ((first, failures) ∷ t) h

entry-table_for :
    (limiter : FailureLimiter) (a : IpAddr) (now : ℕ)
    → entry a (table_for limiter a now) ≡ entry a limiter.table
entry-table_for limiter a now = elim (Bool-cases (Map.contains_key a limiter.table)) [
  | inl known ↦ rw (table_for, known) refl
  | inr new ↦
      let none_there = contains_key-get a limiter.table new in
      elim (Bool-cases (leb limiter.capacity (length limiter.table))) [
        | inl full ↦
            rw (table_for, new, full)
              (ap (λ o. get_or o [])
                (make_room-none limiter.table limiter.capacity now a none_there ∙ sym none_there))
        | inr room ↦ rw (table_for, new, room) refl
      ]
]

pub entry-failed :
    (limiter : FailureLimiter) (a : IpAddr) (now : ℕ)
    → 0 < limiter.per_minute
    → entry (counted_as a) (failed limiter a now).table
      ≡ count limiter.per_minute (entry (counted_as a) limiter.table) now
unfolding failed
entry-failed limiter a now on = elim (Bool-cases (limiter.per_minute == 0)) [
  | inl off ↦ ground (arith, off, on)
  | inr e ↦ rw e (
      entry-count_in limiter.per_minute (counted_as a) (counted_as a) now
        (table_for limiter (counted_as a) now)
      ∙ (rw (is_same_self (counted_as a)) refl
          ∙ ap (λ fs. count limiter.per_minute fs now)
              (entry-table_for limiter (counted_as a) now)))
]

-- An address that is let through has room for another failure.
pub limited-none :
    (limiter : FailureLimiter) (a : IpAddr) (now : ℕ)
    → 0 < limiter.per_minute
    → (limited limiter a now).0 ≡ none
    → length (forget_old (entry (counted_as a) limiter.table) now) < limiter.per_minute
limited-none limiter a now on h =
    room limiter.per_minute (forget_old (entry (counted_as a) limiter.table) now) now on (
      sym (ap (λ x. x.0) (limited-on limiter a now on) ∙ look_up-entry limiter (counted_as a) now)
      ∙ h)
  where
    room :
        (per_minute : ℕ) (failures : List ℕ) (time : ℕ)
        → 0 < per_minute
        → wait_of per_minute failures time ≡ none
        → length failures < per_minute
    room per_minute [] time some_room e = some_room
    room per_minute (at ∷ failures) time some_room e = ground (arith, e)

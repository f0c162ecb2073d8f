-- ===== src/Rate.antt =====
-- crates/passalong-server-api/src/rate.rs: failed authentications, counted per client address in a
-- sliding minute. Times are seconds. A spelled address is `std`'s `IpAddr`, an IPv4 address as its
-- 32 bits and an IPv6 address as its eight segments.
pub mod Windows
pub mod Bounds
pub mod Waits
pub mod Patience
pub mod Counters
pub mod Sharing
pub mod Evictions
pub mod Clients
pub mod Recent
use passalong_server.Base.{
  ℕ, zero, suc, ◌+◌, ◌-◌, ◌*◌, max, ◌≡◌, refl, ◌↔◌, ap, subst, Bool, true, false, not, ◌&&◌, Option,
  none, some, get_or, List, [], ◌∷◌, ◌++◌, map, arith, ltb, leb, ◌==◌, holds, if◌then◌else◌, length,
  take, drop,
}
use passalong_server.Ids.{Text-discrete}
use passalong_server.Map
use passalong_server.Map.{Ord, Map}
use passalong_server.Map.Order.{compare_text, text_ord}

pub data IpAddr : Type 0 where
  v4 : ℕ → IpAddr
  v6 : List ℕ → IpAddr

-- `Ord` of `IpAddr`: the IPv4 addresses first, and each kind in the order of its parts.
abbrev pub parts : IpAddr → List ℕ
parts (v4 bits) = 4 ∷ bits ∷ []
parts (v6 segments) = 6 ∷ segments

pub parts_eq : (a b : IpAddr) → parts a ≡ parts b → a ≡ b
parts_eq (v4 a) (v4 b) e = cc
parts_eq (v4 a) (v6 b) e = cc
parts_eq (v6 a) (v4 b) e = cc
parts_eq (v6 a) (v6 b) e = cc

instance abbrev pub address_ord : Ord IpAddr
address_ord = record {
  cmp = λ a b. compare_text (parts a) (parts b);
  cmp_eq = λ a b. (
    λ e. parts_eq a b ((text_ord.cmp_eq (parts a) (parts b)).0 e),
    λ e. (text_ord.cmp_eq (parts a) (parts b)).1 (ap parts e),
  );
  cmp_flip = λ a b. text_ord.cmp_flip (parts a) (parts b);
  cmp_flop = λ a b. text_ord.cmp_flop (parts a) (parts b);
  cmp_trans = λ a b c. text_ord.cmp_trans (parts a) (parts b) (parts c);
}

-- `std`'s `Ipv6Addr::to_ipv4_mapped`: `::ffff:a.b.c.d` is `a.b.c.d`.
abbrev pub to_ipv4_mapped : List ℕ → Option ℕ
to_ipv4_mapped segments =
    if holds (Text-discrete (take 6 segments) (0 ∷ 0 ∷ 0 ∷ 0 ∷ 0 ∷ 65535 ∷ []))
    then elim (drop 6 segments) [ high ∷ low ∷ [] ↦ some (high * 65536 + low) | _ ↦ none ]
    else none

abbrev pub counted_as : IpAddr → IpAddr
counted_as (v4 bits) = v4 bits
counted_as (v6 segments) = elim (to_ipv4_mapped segments) [
  | some bits ↦ v4 bits
  | none ↦ v6 (take 4 segments ++ map (λ _. 0) (drop 4 segments))
]

abbrev pub window : ℕ
window = 60

-- `CAPACITY`.
abbrev pub default_capacity : ℕ
default_capacity = 10_000

abbrev pub Table : Type 0
Table = Map IpAddr (List ℕ)

pub record FailureLimiter : Type 0 where
  pub per_minute : ℕ
  pub capacity : ℕ
  pub table : Table

-- `FailureLimiter::new`.
abbrev pub new_limiter : ℕ → ℕ → FailureLimiter
new_limiter per_minute capacity = record {
  per_minute = per_minute;
  capacity = max capacity 1;
  table = [];
}

unfoldable pub forget_old : List ℕ → ℕ → List ℕ
forget_old [] now = []
forget_old (at ∷ failures) now =
    let rest = forget_old failures now in if leb (at + window) now then rest else at ∷ failures

-- `VecDeque::back`.
abbrev pub back : List ℕ → Option ℕ
back [] = none
back (at ∷ []) = some at
back (at ∷ next ∷ failures) = back (next ∷ failures)

-- The wait that `limited` answers, from what `forget_old` left.
abbrev pub wait_of : ℕ → List ℕ → ℕ → Option ℕ
wait_of per_minute [] now = none
wait_of per_minute (oldest ∷ failures) now =
    if leb per_minute (length (oldest ∷ failures))
    then some (max (oldest + window - now) 1)
    else none

-- What `limited` leaves of an address's entry: it goes when nothing is left of it.
abbrev pub put_left : IpAddr → List ℕ → Table → Table
put_left address [] table = Map.remove address table
put_left address (oldest ∷ failures) table = Map.insert address (oldest ∷ failures) table

abbrev pub look_up : FailureLimiter → IpAddr → ℕ → Option ℕ × FailureLimiter
look_up limiter address now = elim (Map.get address limiter.table) [
  | none ↦ (none, limiter)
  | some failures ↦ (
    wait_of limiter.per_minute (forget_old failures now) now,
    record limiter { table = put_left address (forget_old failures now) limiter.table },
  )
]

unfoldable pub limited : FailureLimiter → IpAddr → ℕ → Option ℕ × FailureLimiter
limited limiter address now =
    if limiter.per_minute == 0 then (none, limiter) else look_up limiter (counted_as address) now

-- `failures.back().is_some_and(|at| now < at + WINDOW)`.
abbrev pub is_recent : ℕ → List ℕ → Bool
is_recent now failures = elim (back failures) [ none ↦ false | some at ↦ ltb now (at + window) ]

-- `failures.back().copied().unwrap_or(0)`.
abbrev pub last_failure : List ℕ → ℕ
last_failure failures = get_or (back failures) 0

-- `min_by_key`: the first of the least.
unfoldable pub stalest_from : IpAddr → ℕ → Table → IpAddr
stalest_from best at [] = best
stalest_from best at ((address, failures) ∷ table) =
    if ltb (last_failure failures) at
    then stalest_from address (last_failure failures) table
    else stalest_from best at table

abbrev pub stalest : Table → Option IpAddr
stalest [] = none
stalest ((address, failures) ∷ table) = some (stalest_from address (last_failure failures) table)

abbrev pub drop_stalest : Table → Table
drop_stalest table = elim (stalest table) [ none ↦ table | some address ↦ Map.remove address table ]

unfoldable pub make_room : Table → ℕ → ℕ → Table
make_room table capacity now =
    let kept = Map.retain (λ _ failures. is_recent now failures) table in
    if ltb (length kept) capacity then kept else drop_stalest kept

-- An address's failures with another one, and the table with room for the address's entry.
abbrev pub count : ℕ → List ℕ → ℕ → List ℕ
count per_minute failures now =
    let left = forget_old failures now in
    if ltb (length left) per_minute then left ++ now ∷ [] else left

abbrev pub table_for : FailureLimiter → IpAddr → ℕ → Table
table_for limiter address now =
    if not (Map.contains_key address limiter.table) && leb limiter.capacity (length limiter.table)
    then make_room limiter.table limiter.capacity now
    else limiter.table

abbrev pub count_in : ℕ → IpAddr → ℕ → Table → Table
count_in per_minute address now table =
    Map.insert address (count per_minute (get_or (Map.get address table) []) now) table

unfoldable pub failed : FailureLimiter → IpAddr → ℕ → FailureLimiter
failed limiter address now = if limiter.per_minute == 0 then limiter else record limiter {
  table =
      count_in limiter.per_minute (counted_as address) now
        (table_for limiter (counted_as address) now);
}

abbrev pub addresses : FailureLimiter → ℕ
addresses limiter = length limiter.table

-- What is asked of a limiter in the course of time.
pub data Event : Type 0 where
  looked counted : IpAddr → ℕ → Event

abbrev pub after : FailureLimiter → Event → FailureLimiter
after limiter (looked address now) = (limited limiter address now).1
after limiter (counted address now) = failed limiter address now

unfoldable pub after_all : FailureLimiter → List Event → FailureLimiter
after_all limiter [] = limiter
after_all limiter (event ∷ events) = after_all (after limiter event) events

-- ===== src/Rate/Evictions.antt =====
-- Which address makes room when the table is full.
use passalong_server.Map.Laws.{cmp_refl, get-remove_ne}
use passalong_server.Map.Sorted.{
  IsSorted, get-Before, Ordering-cases, get-retain, retain-IsSorted, get-remove_self,
}
use passalong_server.Base.{
  ℕ, ◌≤◌, ◌≡◌, refl, List, [], ◌∷◌, none, some, arith, if◌then◌else◌, ◌⊎◌, ltb, inl, Bool-cases,
  inr, sym, true, length, subst, ◌∙◌,
}
use passalong_server.Map
use passalong_server.Rate.{
  address_ord, IpAddr, Table, stalest_from, last_failure, make_room, is_recent, drop_stalest,
}

Discrete-IpAddr : (a b : IpAddr) → Dec (a ≡ b)
Discrete-IpAddr a b = elim (Ordering-cases (address_ord.cmp a b)) [
  | inl lt ↦ no (λ e. ground (arith, lt, (address_ord.cmp_eq a b).1 e))
  | inr (inl eq) ↦ yes ((address_ord.cmp_eq a b).0 eq)
  | inr (inr gt) ↦ no (λ e. ground (arith, gt, (address_ord.cmp_eq a b).1 e))
]

-- The least of the last failures.
least : ℕ → Table → ℕ
least at [] = at
least at ((address, failures) ∷ table) =
    if ltb (last_failure failures) at then least (last_failure failures) table else least at table

least-le : (at : ℕ) (table : Table) → least at table ≤ at
unfolding least
least-le at [] = omega arith
least-le at ((address, failures) ∷ table) =
    ground (arith, least-le at table, least-le (last_failure failures) table)

least-least :
    (at : ℕ) (table : Table) (address : IpAddr) (failures : List ℕ)
    → Map.get address table ≡ some failures
    → least at table ≤ last_failure failures
unfolding least Map.get
least-least at [] address failures h = ground arith
least-least at ((other, others) ∷ table) address failures h = ground (
  arith,
  least-le at table,
  least-le (last_failure others) table,
  least-least at table address failures,
  least-least (last_failure others) table address failures,
)

-- An entry behind the first one of a sorted table is found behind it.
get-behind :
    (first address : IpAddr) (others failures : List ℕ) (table : Table)
    → IsSorted ((first, others) ∷ table)
    → Map.get address table ≡ some failures
    → Map.get address ((first, others) ∷ table) ≡ some failures
unfolding Map.get
get-behind first address others failures table s h =
    ground (arith, h, get-Before first table s.0 s.1, address_ord.cmp_eq address first)

stalest_from-least :
    (best : IpAddr) (at : ℕ) (table : Table)
    → IsSorted table
    → ((stalest_from best at table ≡ best) × (least at table ≡ at))
      ⊎ ((failures : List ℕ) × (Map.get (stalest_from best at table) table ≡ some failures)
          × (last_failure failures ≡ least at table))
unfolding stalest_from least Map.get
stalest_from-least best at [] s = inl (refl, refl)
stalest_from-least best at ((address, failures) ∷ table) s =
    elim (Bool-cases (ltb (last_failure failures) at)) [
      | inl less ↦ elim (stalest_from-least address (last_failure failures) table s.1) [
        | inl (e, m) ↦ rw less (inr (failures, rw (e, Map.get, cmp_refl address) refl, sym m))
        | inr (found, g, m) ↦ rw less (
            inr (
              found,
              get-behind address (stalest_from address (last_failure failures) table) failures found
                  table s g,
              m,
            ))
      ]
      | inr no_less ↦ elim (stalest_from-least best at table s.1) [
        | inl (e, m) ↦ rw no_less (inl (e, m))
        | inr (found, g, m) ↦ rw no_less (
            inr
              (found, get-behind address (stalest_from best at table) failures found table s g, m))
      ]
    ]

least-first :
    (first : IpAddr) (failures : List ℕ) (table : Table)
    → least (last_failure failures) ((first, failures) ∷ table)
      ≡ least (last_failure failures) table
unfolding least
least-first first failures table =
    elim (Bool-cases (ltb (last_failure failures) (last_failure failures))) [
      | inl e ↦ rw e refl
      | inr e ↦ rw e refl
    ]

get-first :
    (first : IpAddr) (failures : List ℕ) (table : Table)
    → Map.get first ((first, failures) ∷ table) ≡ some failures
unfolding Map.get
get-first first failures table = rw (cmp_refl first, Map.get) refl

-- The chosen address has an entry, and its last failure is no later than any other's.
stalest-least :
    (first : IpAddr) (failures : List ℕ) (table : Table) (address : IpAddr) (others gone : List ℕ)
    → IsSorted ((first, failures) ∷ table)
    → Map.get (stalest_from first (last_failure failures) table) ((first, failures) ∷ table)
      ≡ some gone
    → Map.get address ((first, failures) ∷ table) ≡ some others
    → last_failure gone ≤ last_failure others
stalest-least first failures table address others gone s g h =
    let whole : Table = (first, failures) ∷ table in
    let low : least (last_failure failures) table ≤ last_failure others =
      subst (λ n. n ≤ last_failure others) (least-first first failures table)
        (least-least (last_failure failures) whole address others h) in
    elim (stalest_from-least first (last_failure failures) table s.1) [
      | inl (e, m) ↦
          let same : some failures ≡ some gone =
            sym (get-first first failures table) ∙ subst (λ a. Map.get a whole ≡ some gone) e g in
          at_most low m (some-injective same)
      | inr (found, f, m) ↦
          let behind =
            get-behind first (stalest_from first (last_failure failures) table) failures found table
              s f in
          at_most low (sym m) (some-injective (sym behind ∙ g))
    ]
  where
    some-injective : {a b : List ℕ} → some a ≡ some b → a ≡ b
    some-injective e = cc

    at_most :
        {n : ℕ} {fs : List ℕ}
        → n ≤ last_failure others
        → n ≡ last_failure fs
        → fs ≡ gone
        → last_failure gone ≤ last_failure others
    at_most low m e = rw (sym e, sym m) low

-- In a table in which nothing is left to forget, the address that makes room is one whose last
-- failure is no later than that of any address that stays.
pub make_room-oldest :
    (table : Table) (capacity now : ℕ) (gone stays : IpAddr) (failures others : List ℕ)
    → IsSorted table
    → Map.get gone table ≡ some failures
    → is_recent now failures ≡ true
    → Map.get gone (make_room table capacity now) ≡ none
    → Map.get stays (make_room table capacity now) ≡ some others
    → last_failure failures ≤ last_failure others
unfolding make_room
make_room-oldest table capacity now gone stays failures others s g recent went kept =
    let recents = Map.retain (λ _ fs. is_recent now fs) table in
    let held = get-retain (λ _ fs. is_recent now fs) gone failures table s g recent in
    elim (Bool-cases (ltb (length recents) capacity)) [
      | inl e ↦ ground (arith, e, held, went)
      | inr e ↦
          dropped recents (retain-IsSorted (λ _ fs. is_recent now fs) table s) held
            (ground (arith, e, went)) (ground (arith, e, kept))
    ]
  where
    dropped :
        (t : Table)
        → IsSorted t
        → Map.get gone t ≡ some failures
        → Map.get gone (drop_stalest t) ≡ none
        → Map.get stays (drop_stalest t) ≡ some others
        → last_failure failures ≤ last_failure others
    dropped [] s h w k = ground (arith, h, w)
    dropped ((first, fs) ∷ t) s h w k =
        let chosen = stalest_from first (last_failure fs) t in
        let whole : Table = (first, fs) ∷ t in
        elim (Discrete-IpAddr gone chosen) [
          | yes e ↦
              stalest-least first fs t stays others failures s
                (subst (λ a. Map.get a whole ≡ some failures) e h)
                (sym (
                    get-remove_ne chosen stays whole
                      (λ same. ground (arith, same, k, get-remove_self chosen whole s)))
                  ∙ k)
          | no n ↦ ground (arith, get-remove_ne chosen gone whole n, h, w)
        ]

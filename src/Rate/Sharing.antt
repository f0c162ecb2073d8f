-- ===== src/Rate/Sharing.antt =====
-- Who shares a counter: one IPv4 address, however it is written, and one IPv6 network of 64 bits.
use passalong_server.Rate.Counters.{watch, is_same, is_same_self, is_same-eq, limited-counter}
use passalong_server.Rate.{
  IpAddr, Event, v4, looked, counted_as, v6, counted, limited, to_ipv4_mapped, forget_old,
  after_all, Text-discrete, count, new_limiter, wait_of,
}
use passalong_server.Base.{
  zero, refl, none, ◌≡◌, ℕ, Bool, List, ◌==◌, ◌∷◌, length, take, ◌≤◌, All, ◌<◌, false,
  if◌then◌else◌, [], map, ◌++◌, arith, ap, true, Bool-cases, holds, drop, Option-cases, inl, some,
  ◌∙◌, inr, length-drop, sym,
}

-- A client: an IPv4 host, or an IPv6 site, which is the first four segments of its addresses.
pub data Client : Type 0 where
  host : ℕ → Client
  site : List ℕ → Client

abbrev pub client_of : IpAddr → Client
client_of (v4 bits) = host bits
client_of (v6 segments) = elim (to_ipv4_mapped segments) [
  | some bits ↦ host bits
  | none ↦ site (take 4 segments)
]

abbrev pub is_client : Client → Client → Bool
is_client (host a) (host b) = a == b
is_client (host a) (site t) = false
is_client (site s) (host b) = false
is_client (site s) (site t) = holds (Text-discrete s t)

-- A spelled address: an IPv6 address has eight segments.
abbrev pub IsAddress : IpAddr → Type 0
IsAddress (v4 bits) = Unit
IsAddress (v6 segments) = length segments ≡ 8

abbrev pub EventIsAddress : Event → Type 0
EventIsAddress (looked a now) = IsAddress a
EventIsAddress (counted a now) = IsAddress a

-- The failures of one client in the window, after events of any addresses.
abbrev pub watch_client_one : ℕ → IpAddr → List ℕ → Event → List ℕ
watch_client_one per_minute address failures (looked a now) =
    if is_client (client_of address) (client_of a) then forget_old failures now else failures
watch_client_one per_minute address failures (counted a now) =
    if is_client (client_of address) (client_of a) then count per_minute failures now else failures

unfoldable pub watch_client : ℕ → IpAddr → List ℕ → List Event → List ℕ
watch_client per_minute address failures [] = failures
watch_client per_minute address failures (event ∷ events) =
    watch_client per_minute address (watch_client_one per_minute address failures event) events

zeros : (s t : List ℕ) → length s ≡ length t → map (λ _. zero) s ≡ map (λ _. zero) t
zeros [] [] e = refl
zeros [] (b ∷ t) e = ground arith
zeros (a ∷ s) [] e = ground arith
zeros (a ∷ s) (b ∷ t) e = ap (λ r. zero ∷ r) (zeros s t (omega (arith, e)))

-- An IPv6 address with its last four segments cleared.
abbrev cleared : List ℕ → List ℕ
cleared segments = take 4 segments ++ map (λ _. zero) (drop 4 segments)

cleared-take : (s : List ℕ) → 4 ≤ length s → take 4 (cleared s) ≡ take 4 s
cleared-take [] h = refl
cleared-take (a ∷ []) h = ground arith
cleared-take (a ∷ b ∷ []) h = ground arith
cleared-take (a ∷ b ∷ c ∷ []) h = ground arith
cleared-take (a ∷ b ∷ c ∷ d ∷ s) h = refl

cleared-eq :
    (s t : List ℕ) → length s ≡ 8 → length t ≡ 8 → take 4 s ≡ take 4 t → cleared s ≡ cleared t
cleared-eq s t m n e =
    ap (λ h. h ++ map (λ _. zero) (drop 4 s)) e
    ∙ ap (λ l. take 4 t ++ l)
        (zeros (drop 4 s) (drop 4 t) (omega (arith, length-drop 4 s, length-drop 4 t, m, n)))

-- What two addresses are counted as is the same where they are of one client.
counted-client :
    (a b : IpAddr)
    → IsAddress a
    → IsAddress b
    → ((counted_as a ≡ counted_as b) → is_client (client_of a) (client_of b) ≡ true)
      × (is_client (client_of a) (client_of b) ≡ true → counted_as a ≡ counted_as b)
counted-client (v4 m) (v4 n) p q = (λ e. ground (arith, e), λ e. ground (arith, e))
counted-client (v4 m) (v6 t) p q = elim (Option-cases (to_ipv4_mapped t)) [
  | inl e ↦ rw (e, counted_as, client_of) (λ h. cc, λ h. ground (arith, h))
  | inr (n, e) ↦ rw (e, counted_as, client_of) (λ h. ground (arith, h), λ h. ground (arith, h))
]
counted-client (v6 s) (v4 n) p q = elim (Option-cases (to_ipv4_mapped s)) [
  | inl e ↦ rw (e, counted_as, client_of) (λ h. cc, λ h. ground (arith, h))
  | inr (m, e) ↦ rw (e, counted_as, client_of) (λ h. ground (arith, h), λ h. ground (arith, h))
]
counted-client (v6 s) (v6 t) p q = elim (Option-cases (to_ipv4_mapped s)) [
  | inl e ↦ elim (Option-cases (to_ipv4_mapped t)) [
    | inl f ↦
        rw (e, f, counted_as, client_of)
          (λ h. ground (arith, sites h), λ h. ap v6 (cleared-eq s t p q (ground (arith, h))))
    | inr (n, f) ↦ rw (e, f, counted_as, client_of) (λ h. cc, λ h. ground (arith, h))
  ]
  | inr (m, e) ↦ elim (Option-cases (to_ipv4_mapped t)) [
    | inl f ↦ rw (e, f, counted_as, client_of) (λ h. cc, λ h. ground (arith, h))
    | inr (n, f) ↦ rw (e, f, counted_as, client_of) (λ h. ground (arith, h), λ h. ground (arith, h))
  ]
]
  where
    segments_of : IpAddr → List ℕ
    segments_of (v4 bits) = []
    segments_of (v6 segments) = segments

    sites : v6 (cleared s) ≡ v6 (cleared t) → take 4 s ≡ take 4 t
    sites h =
        sym (cleared-take s (omega (arith, p)))
        ∙ (ap (λ a. take 4 (segments_of a)) h ∙ cleared-take t (omega (arith, q)))

same_counter :
    (a b : IpAddr)
    → IsAddress a
    → IsAddress b
    → is_same (counted_as a) (counted_as b) ≡ is_client (client_of a) (client_of b)
same_counter a b p q =
    let both = counted-client a b p q in
    elim (Bool-cases (is_client (client_of a) (client_of b))) [
      | inl one ↦ rw (one, both.1 one) (is_same_self (counted_as b))
      | inr two ↦ elim (Bool-cases (is_same (counted_as a) (counted_as b))) [
        | inl same ↦
            absurd (ground (arith, two, both.0 (is_same-eq (counted_as a) (counted_as b) same)))
        | inr apart ↦ apart ∙ sym two
      ]
    ]

watch-client :
    (per_minute : ℕ) (address : IpAddr) (events : List Event) (failures : List ℕ)
    → IsAddress address
    → All EventIsAddress events
    → watch per_minute (counted_as address) failures events
      ≡ watch_client per_minute address failures events
unfolding watch watch_client
watch-client per_minute address [] failures p ps = refl
watch-client per_minute address (looked a now ∷ events) failures p ps =
    rw (same_counter address a p ps.0) (watch-client per_minute address events _ p ps.1)
watch-client per_minute address (counted a now ∷ events) failures p ps =
    rw (same_counter address a p ps.0) (watch-client per_minute address events _ p ps.1)

-- Until a limiter has been asked and told more often than its table has places, it answers every
-- address as one counter for the address's client would, from the failures counted against any
-- address of that client: an IPv4 address, also as an IPv6 address that maps it, is a client of its
-- own, and the other IPv6 addresses are one client where their first four segments are the same.
pub limited-watch :
    (per_minute capacity : ℕ) (events : List Event) (address : IpAddr) (now : ℕ)
    → 0 < per_minute
    → length events ≤ capacity
    → IsAddress address
    → All EventIsAddress events
    → (limited (after_all (new_limiter per_minute capacity) events) address now).0
      ≡ wait_of per_minute (forget_old (watch_client per_minute address [] events) now) now
limited-watch per_minute capacity events address now on room p ps =
    limited-counter per_minute capacity events address now on room
    ∙ ap (λ failures. wait_of per_minute (forget_old failures now) now)
        (watch-client per_minute address events [] p ps)

-- ===== src/Gate/Guesses.antt =====
-- How many guesses an address has.
use passalong_server.Rate.Patience.{IsElsewhere, watch_one-elsewhere}
use passalong_server.Error.{spins}
use passalong_server.Error.{ok, err}
use passalong_server.Rate.Counters.{entry, is_same, is_same-eq, entry-after}
use passalong_server.Rate.Recent.{recent, recent-length}
use passalong_server.Rate.Bounds.{IsBounded, entry-IsShort}
use passalong_server.Rate.{counted_as, looked, counted, Event, after}
use passalong_server.Base.{
  ℕ, suc, ◌+◌, ◌≤◌, ◌<◌, ◌≡◌, refl, List, [], ◌∷◌, none, some, arith, ◌∙◌, ap, length,
  if◌then◌else◌, Option-cases, All, inl, sym, inr, subst, Bool-cases, Option, Bool, ◌*◌, false,
  true,
}
use passalong_server.Gate.{
  Gate, Request, layer, Env, IpAddr, FailureLimiter, limited, Result, look_at, is_guess,
  Authenticated, bearer, Database, answer, ok, authenticate, ask_limiter, gated,
}
use passalong_server.Gate.Held.{
  guess_answered, IsWithin, IsReady, held, after-IsReady, less, layer-through, layer-Counted,
}

-- The request is counted under the address, or under one that shares its counter.
abbrev pub is_of : IpAddr → Option IpAddr → Bool
is_of address none = false
is_of address (some a) = is_same (counted_as address) (counted_as a)

-- Requests one after the other, and how many of them were guesses of the address that were looked at.
unfoldable pub serve_all : IpAddr → List (Env × Request) → Gate → ℕ × Gate
serve_all address [] gate = (0, gate)
serve_all address ((env, request) ∷ requests) gate =
    let first = layer env request gate in
    let rest = serve_all address requests first.1 in
    ((if is_of address request.address then guess_answered first.0 else 0) + rest.0, rest.1)

-- A request of another address leaves the address's failures, and one of an unknown address all.
module _ (address : IpAddr) (per_minute since before : ℕ) where
  abbrev Same : ℕ → Gate → Type 0
  Same events gate =
      IsReady per_minute events gate.failures × (held since address gate.failures ≡ before)

  less-Same : (gate : Gate) (events : ℕ) → Same (suc events) gate → Same events gate
  less-Same gate events (ready, same) = (less gate.failures per_minute events ready, same)

  after-Same :
      (limiter : FailureLimiter) (event : Event) (events : ℕ)
      → IsElsewhere address event
      → IsReady per_minute (suc events) limiter × (held since address limiter ≡ before)
      → IsReady per_minute events (after limiter event)
        × (held since address (after limiter event) ≡ before)
  after-Same limiter event events other (ready, same) = (
    after-IsReady limiter event per_minute events ready,
    ap (recent since) (
          entry-after limiter (counted_as address) event events ready.2
          ∙ watch_one-elsewhere limiter.per_minute address
              (entry (counted_as address) limiter.table) event other)
        ∙ same,
  )

  answer-Same :
      (a : IpAddr) (now events : ℕ) (x : Result Authenticated × Database) (gate : Gate)
      → is_same (counted_as address) (counted_as a) ≡ false
      → Same (suc events) gate
      → Same events (answer (some a) now x gate).1
  answer-Same a now events (ok who, db) gate other s = less-Same gate events s
  answer-Same a now events (err e, db) gate other s = elim (Bool-cases (is_guess e)) [
    | inl guess ↦ rw (guess, answer) (after-Same gate.failures (counted a now) events other s)
    | inr kept ↦ rw (kept, answer) (less-Same gate events s)
  ]
  answer-Same a now events (spins, db) gate other s = less-Same gate events s

  look_at-Same :
      (env : Env) (request : Request) (a : IpAddr) (events : ℕ) (gate : Gate)
      → request.address ≡ some a
      → is_same (counted_as address) (counted_as a) ≡ false
      → Same (suc events) gate
      → Same events (look_at env request gate).1
  look_at-Same env request a events gate from other s = elim (Option-cases (bearer request)) [
    | inl e ↦
        rw (look_at, e, from) (after-Same gate.failures (counted a (env.clock 1)) events other s)
    | inr (token, e) ↦
        rw (look_at, e, from)
          (answer-Same a (env.clock 1) events (authenticate env token gate.control) gate other s)
  ]

  layer-Same :
      (env : Env) (request : Request) (a : IpAddr) (events : ℕ) (gate : Gate)
      → request.address ≡ some a
      → is_same (counted_as address) (counted_as a) ≡ false
      → Same (suc (suc events)) gate
      → Same events (layer env request gate).1
  layer-Same env request a events gate from other s =
      let next : Gate = record gate { failures = (limited gate.failures a (env.clock 0)).1 } in
      let kept = after-Same gate.failures (looked a (env.clock 0)) (suc events) other s in
      elim (Option-cases (limited gate.failures a (env.clock 0)).0) [
        | inl e ↦
            rw (layer-through env request a gate none from e)
              (look_at-Same env request a events next from other kept)
        | inr (wait, e) ↦
            rw (layer-through env request a gate (some wait) from e) (less-Same next events kept)
      ]

  unknown-Same :
      (env : Env) (request : Request) (events : ℕ) (gate : Gate)
      → request.address ≡ none
      → Same (suc (suc events)) gate
      → Same events (layer env request gate).1
  unfolding layer
  unknown-Same env request events gate from s =
      rw (from, ask_limiter, gated)
        (elim (Option-cases (bearer request)) [
          | inl e ↦ rw (look_at, e, from) (twice gate s)
          | inr (token, e) ↦ rw (look_at, e, from) (answered (authenticate env token gate.control))
        ])
    where
      twice : (g : Gate) → Same (suc (suc events)) g → Same events g
      twice g h = less-Same g events (less-Same g (suc events) h)

      answered :
          (x : Result Authenticated × Database) → Same events (answer none (env.clock 1) x gate).1
      answered (ok who, db) = twice gate s
      answered (err e, db) = elim (Bool-cases (is_guess e)) [
        | inl guess ↦ rw (guess, answer) (twice gate s)
        | inr kept ↦ rw (kept, answer) (twice gate s)
      ]
      answered (spins, db) = twice gate s

skipped : (b : Bool) (g n m : ℕ) → b ≡ false → n ≡ m → (if b then g else 0) + n ≡ m
skipped b g n m e h = rw e (omega (arith, h))

taken : (b : Bool) (g n m : ℕ) → b ≡ true → g + n ≡ m → (if b then g else 0) + n ≡ m
taken b g n m e h = rw e h

-- One request, whoever sends it.
layer-held :
    (env : Env) (request : Request) (address : IpAddr) (per_minute events since : ℕ) (gate : Gate)
    → IsWithin since (env, request)
    → IsReady per_minute (suc (suc events)) gate.failures
    → IsReady per_minute events (layer env request gate).1.failures
      × ((if is_of address request.address then guess_answered (layer env request gate).0 else 0)
            + held since address gate.failures
          ≡ held since address (layer env request gate).1.failures)
layer-held env request address per_minute events since gate within ready =
    let first = layer env request gate in
    elim (Option-cases request.address) [
      | inl from ↦
          let s =
            unknown-Same address per_minute since (held since address gate.failures) env request
              events gate from (ready, refl) in
          (s.0, skipped _ (guess_answered first.0) _ _ (ap (is_of address) from) (sym s.1))
      | inr (a, from) ↦ elim (Bool-cases (is_same (counted_as address) (counted_as a))) [
        | inl same ↦
            let c = layer-Counted env request a per_minute events since gate from within ready in
            (
              c.0,
              taken _ (guess_answered first.0) _ _ (ap (is_of address) from ∙ same) (
                  subst
                    (λ k.
                      guess_answered first.0 + recent since (entry k gate.failures.table)
                      ≡ recent since (entry k first.1.failures.table))
                    (sym (is_same-eq (counted_as address) (counted_as a) same)) c.1),
            )
        | inr other ↦
            let s =
              layer-Same address per_minute since (held since address gate.failures) env request a
                events gate from other (ready, refl) in
            (
              s.0,
              skipped _ (guess_answered first.0) _ _ (ap (is_of address) from ∙ other) (sym s.1),
            )
      ]
    ]

-- Two events for each request.
abbrev twice_length : List (Env × Request) → ℕ
twice_length [] = 0
twice_length (request ∷ requests) = suc (suc (twice_length requests))

twice_length-eq : (requests : List (Env × Request)) → twice_length requests ≡ 2 * length requests
twice_length-eq [] = omega arith
twice_length-eq (request ∷ requests) = omega (arith, twice_length-eq requests)

serve_all-held :
    (requests : List (Env × Request)) (address : IpAddr) (per_minute since : ℕ) (gate : Gate)
    → All (IsWithin since) requests
    → IsReady per_minute (twice_length requests) gate.failures
    → IsReady per_minute 0 (serve_all address requests gate).1.failures
      × ((serve_all address requests gate).0 + held since address gate.failures
          ≡ held since address (serve_all address requests gate).1.failures)
unfolding serve_all
serve_all-held [] address per_minute since gate of ready = (ready, omega arith)
serve_all-held ((env, request) ∷ requests) address per_minute since gate of ready =
    let first =
      layer-held env request address per_minute (twice_length requests) since gate of.0 ready in
    let rest =
      serve_all-held requests address per_minute since (layer env request gate).1 of.1 first.0 in
    (rest.0, omega (arith, first.1, rest.1))

-- Whatever anybody sends within a minute, served one request after the other, no more than
-- `per_minute` of the requests that are counted under an address are answered with
-- `UNAUTHENTICATED`, which is what tells a guess that it was wrong; as long as the table has two
-- places left for each request, so that it lets no address go. Both readings of the clock that a
-- request makes are in that minute, in their order.
pub serve_all-guesses :
    (requests : List (Env × Request)) (address : IpAddr) (per_minute since : ℕ) (gate : Gate)
    → 0 < per_minute
    → gate.failures.per_minute ≡ per_minute
    → IsBounded gate.failures
    → length gate.failures.table + 2 * length requests ≤ gate.failures.capacity
    → All (IsWithin since) requests
    → (serve_all address requests gate).0 ≤ per_minute
serve_all-guesses requests address per_minute since gate on same bounded room within =
    let double = twice_length-eq requests in
    let (ready, sum) =
      serve_all-held requests address per_minute since gate within
        (same, bounded, (omega (arith, same, on), omega (arith, room, double), bounded.3)) in
    let last = (serve_all address requests gate).1.failures in
    let short = entry-IsShort last.per_minute (counted_as address) last.table ready.1.2 in
    omega (arith, sum, ready.0, short, recent-length since (entry (counted_as address) last.table))

-- ===== src/Gate/Held.antt =====
-- What a request of an address leaves of its failures in the minute.
use passalong_server.Error.{spins}
use passalong_server.Error.{ok, err}
use passalong_server.Rate.Windows.{length-forget_old}
use passalong_server.Rate.Counters.{entry, per_minute-after, HasRoom, after-HasRoom}
use passalong_server.Rate.Recent.{
  recent, entry-limited, recent-forget_old, entry-failed, recent-count, limited-none,
}
use passalong_server.Rate.Bounds.{IsBounded, limited-IsBounded, failed-IsBounded}
use passalong_server.Rate.{window, counted_as, forget_old, looked, counted, Event, after}
use passalong_server.Base.{
  ℕ, suc, ◌+◌, ◌≤◌, ◌<◌, ◌≡◌, refl, none, some, arith, ◌∙◌, ap, length, if◌then◌else◌, Option-cases,
  inl, sym, inr, subst, Bool-cases, Option,
}
use passalong_server.Gate.{
  Gate, Request, Response, layer, refusal, Env, IpAddr, FailureLimiter, limited, failed, Result,
  look_at, is_guess, Authenticated, bearer, retry_after, Database, handled, answer, ok,
  authenticate, ask_limiter, gated,
}

-- The answer to a guess: no key, or one that is not a key of this server.
abbrev pub guess_answered : Response → ℕ
guess_answered (refusal e) = if is_guess e then 1 else 0
guess_answered (retry_after wait) = 0
guess_answered (handled who) = 0

-- A request within the minute from `since` on.
abbrev pub IsWithin : ℕ → Env × Request → Type 0
IsWithin since (env, request) =
    (since ≤ env.clock 0) × (env.clock 0 ≤ env.clock 1) × (env.clock 1 < since + window)

-- A limiter with room for so many events.
abbrev pub IsReady : ℕ → ℕ → FailureLimiter → Type 0
IsReady per_minute events limiter =
    (limiter.per_minute ≡ per_minute) × IsBounded limiter × HasRoom events limiter

abbrev pub held : ℕ → IpAddr → FailureLimiter → ℕ
held since address limiter = recent since (entry (counted_as address) limiter.table)

pub after-IsReady :
    (limiter : FailureLimiter) (event : Event) (per_minute events : ℕ)
    → IsReady per_minute (suc events) limiter
    → IsReady per_minute events (after limiter event)
after-IsReady limiter (looked a now) per_minute events (same, bounded, room) = (
  per_minute-after limiter (looked a now) ∙ same,
  limited-IsBounded limiter a now bounded,
  after-HasRoom limiter (looked a now) events room,
)
after-IsReady limiter (counted a now) per_minute events (same, bounded, room) = (
  per_minute-after limiter (counted a now) ∙ same,
  failed-IsBounded limiter a now bounded,
  after-HasRoom limiter (counted a now) events room,
)

pub less :
    (limiter : FailureLimiter) (per_minute events : ℕ)
    → IsReady per_minute (suc events) limiter
    → IsReady per_minute events limiter
less limiter per_minute events (same, bounded, (on, room, sorted)) =
    (same, bounded, (on, omega arith, sorted))

-- What a look and a failure leave of the address's failures in the minute.
limited-held :
    (limiter : FailureLimiter) (address : IpAddr) (now per_minute events since : ℕ)
    → IsReady per_minute (suc events) limiter
    → now < since + window
    → IsReady per_minute events (limited limiter address now).1
      × (held since address (limited limiter address now).1 ≡ held since address limiter)
limited-held limiter address now per_minute events since ready early = (
  after-IsReady limiter (looked address now) per_minute events ready,
  ap (recent since) (entry-limited limiter address now ready.2.0 ready.2.2)
      ∙ recent-forget_old since (entry (counted_as address) limiter.table) now early,
)

failed-held :
    (limiter : FailureLimiter) (address : IpAddr) (now per_minute events since : ℕ)
    → IsReady per_minute (suc events) limiter
    → since ≤ now
    → now < since + window
    → length (forget_old (entry (counted_as address) limiter.table) now) < per_minute
    → IsReady per_minute events (failed limiter address now)
      × (held since address (failed limiter address now) ≡ suc (held since address limiter))
failed-held limiter address now per_minute events since ready late early few = (
  after-IsReady limiter (counted address now) per_minute events ready,
  ap (recent since) (entry-failed limiter address now ready.2.0)
      ∙ recent-count since limiter.per_minute (entry (counted_as address) limiter.table) now late
          early (omega (arith, ready.0, few)),
)

-- The rest of the layer, for an address that the limiter let through.
abbrev Counted : ℕ → ℕ → ℕ → IpAddr → ℕ → Response × Gate → Type 0
Counted per_minute events since address before (response, gate) =
    IsReady per_minute events gate.failures
    × (guess_answered response + before ≡ held since address gate.failures)

pub none_more : (n : ℕ) → 0 + n ≡ n
none_more n = omega arith

one_more : (n m : ℕ) → m ≡ suc n → 1 + n ≡ m
one_more n m h = omega (arith, h)

answer-Counted :
    (address : IpAddr) (now per_minute events since : ℕ) (x : Result Authenticated × Database)
    (gate : Gate)
    → IsReady per_minute (suc events) gate.failures
    → since ≤ now
    → now < since + window
    → length (forget_old (entry (counted_as address) gate.failures.table) now) < per_minute
    → Counted per_minute events since address
        (held since address gate.failures)
        (answer (some address) now x gate)
answer-Counted address now per_minute events since (ok who, db) gate ready late early few =
    (less gate.failures per_minute events ready, none_more _)
answer-Counted address now per_minute events since (err e, db) gate ready late early few =
    elim (Bool-cases (is_guess e)) [
      | inl guess ↦
          let after =
            failed-held gate.failures address now per_minute events since ready late early few in
          rw (guess, answer) (after.0, one_more _ _ after.1)
      | inr other ↦ rw (other, answer) (less gate.failures per_minute events ready, none_more _)
    ]
answer-Counted address now per_minute events since (spins, db) gate ready late early few =
    (less gate.failures per_minute events ready, none_more _)

look_at-Counted :
    (env : Env) (request : Request) (address : IpAddr) (per_minute events since : ℕ) (gate : Gate)
    → request.address ≡ some address
    → IsReady per_minute (suc events) gate.failures
    → since ≤ env.clock 1
    → env.clock 1 < since + window
    → length (forget_old (entry (counted_as address) gate.failures.table) (env.clock 1))
      < per_minute
    → Counted per_minute events since address
        (held since address gate.failures)
        (look_at env request gate)
look_at-Counted env request address per_minute events since gate from ready late early few =
    elim (Option-cases (bearer request)) [
      | inl e ↦
          let after =
            failed-held gate.failures address (env.clock 1) per_minute events since ready late early
              few in
          rw (look_at, e, from) (after.0, one_more _ _ after.1)
      | inr (token, e) ↦
          rw (look_at, e, from)
            (answer-Counted address (env.clock 1) per_minute events since
              (authenticate env token gate.control) gate ready late early few)
    ]

-- The layer, where the limiter lets the address through and where it does not.
pub layer-through :
    (env : Env) (request : Request) (address : IpAddr) (gate : Gate) (o : Option ℕ)
    → request.address ≡ some address
    → (limited gate.failures address (env.clock 0)).0 ≡ o
    → layer env request gate
      ≡ gated env request
          (o, record gate { failures = (limited gate.failures address (env.clock 0)).1 })
unfolding layer
layer-through env request address gate o from e =
    ap (gated env request) (asked request.address from)
  where
    asked :
        (a : Option IpAddr)
        → a ≡ some address
        → ask_limiter a (env.clock 0) gate
          ≡ (o, record gate { failures = (limited gate.failures address (env.clock 0)).1 })
    asked a f = rw (f, ask_limiter, e) refl

pub layer-Counted :
    (env : Env) (request : Request) (address : IpAddr) (per_minute events since : ℕ) (gate : Gate)
    → request.address ≡ some address
    → IsWithin since (env, request)
    → IsReady per_minute (suc (suc events)) gate.failures
    → Counted per_minute events since address
        (held since address gate.failures)
        (layer env request gate)
layer-Counted env request address per_minute events since gate from (late, on, early) ready =
    let now = env.clock 0 in
    let looked_at =
      limited-held gate.failures address now per_minute (suc events) since ready (omega arith) in
    let next : Gate = record gate { failures = (limited gate.failures address now).1 } in
    elim (Option-cases (limited gate.failures address now).0) [
      | inl e ↦
          let seen = entry-limited gate.failures address now ready.2.0 ready.2.2 in
          let few = limited-none gate.failures address now ready.2.0 e in
          let again =
            length-forget_old (entry (counted_as address) next.failures.table) (env.clock 1) in
          let fewer = ap length seen in
          rw (layer-through env request address gate none from e) (
            subst (λ n. Counted per_minute events since address n (look_at env request next))
              looked_at.1
              (look_at-Counted env request address per_minute events since next from looked_at.0
                (omega arith) early (omega (arith, again, fewer, few, ready.0))))
      | inr (wait, e) ↦
          rw (layer-through env request address gate (some wait) from e)
            (less next.failures per_minute events looked_at.0, none_more _ ∙ sym looked_at.1)
    ]

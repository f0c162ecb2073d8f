-- ===== src/Gate.antt =====
-- crates/passalong-server-api/src/auth.rs: the bearer layer, which runs before any handler. The
-- header's values and the handler behind the layer are parameters. The layer reads the clock for the
-- look at the address, and again for the count of a guess; `authenticate` has its own first reading.
pub mod Held
pub mod Guesses
use passalong_server.Views.Items.{trim}
use passalong_server.Auth.{strip_prefix}
use passalong_server.Control.Authenticate.{authenticate}
use passalong_server.Ids.{Text}
use passalong_server.Error.{Result, ok, err, spins, ApiError, unauthenticated, service_unavailable}
use passalong_server.Control.{Database, Authenticated, Env}
use passalong_server.Base.{
  ℕ, Bool, true, false, not, Option, none, some, List, [], ◌∷◌, ◌==◌, length, if◌then◌else◌,
}
use passalong_server.Rate.{FailureLimiter, IpAddr, limited, failed}

-- `Bearer `.
abbrev pub scheme : Text
scheme = b'B' ∷ b'e' ∷ b'a' ∷ b'r' ∷ b'e' ∷ b'r' ∷ b' ' ∷ []

abbrev pub nonempty : Text → Option Text
nonempty [] = none
nonempty (b ∷ token) = some (b ∷ token)

-- What the request carries: the value of its `Authorization` header as text, if it has one that is
-- text, and the address that it is counted under, if that is known.
pub record Request : Type 0 where
  pub authorization : Option Text
  pub address : Option IpAddr

unfoldable pub bearer : Request → Option Text
bearer request = elim request.authorization [
  | none ↦ none
  | some header ↦ elim (strip_prefix scheme header) [
    | none ↦ none
    | some token ↦ nonempty (trim token)
  ]
]

-- What the layer keeps: the limiter, and the control database.
pub record Gate : Type 0 where
  pub failures : FailureLimiter
  pub control : Database

-- What it answers: a refusal with a wait, or without, or what the handler makes of the request.
pub data Response : Type 0 where
  retry_after : ℕ → Response
  refusal : ApiError → Response
  handled : Authenticated → Response

abbrev pub ask_limiter : Option IpAddr → ℕ → Gate → Option ℕ × Gate
ask_limiter none now gate = (none, gate)
ask_limiter (some address) now gate = (
  (limited gate.failures address now).0,
  record gate { failures = (limited gate.failures address now).1 },
)

-- `guessed`.
abbrev pub guessed : Option IpAddr → ℕ → Gate → Gate
guessed none now gate = gate
guessed (some address) now gate = record gate { failures = failed gate.failures address now }

abbrev pub is_guess : ApiError → Bool
is_guess unauthenticated = true
is_guess _ = false

abbrev pub answer : Option IpAddr → ℕ → Result Authenticated × Database → Gate → Response × Gate
answer address now (ok who, db) gate = (handled who, record gate { control = db })
answer address now (err e, db) gate = (
  refusal e,
  if is_guess e
      then guessed address now (record gate { control = db })
      else record gate { control = db },
)
answer address now (spins, db) gate = (refusal service_unavailable, gate)

abbrev pub look_at : Env → Request → Gate → Response × Gate
look_at env request gate = elim (bearer request) [
  | none ↦ (refusal unauthenticated, guessed request.address (env.clock 1) gate)
  | some token ↦ answer request.address (env.clock 1) (authenticate env token gate.control) gate
]

abbrev pub gated : Env → Request → Option ℕ × Gate → Response × Gate
gated env request (some wait, gate) = (retry_after wait, gate)
gated env request (none, gate) = look_at env request gate

unfoldable pub layer : Env → Request → Gate → Response × Gate
layer env request gate = gated env request (ask_limiter request.address (env.clock 0) gate)

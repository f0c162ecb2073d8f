-- ===== src/Error.antt =====
-- crates/passalong-server-core/src/error.rs: the API's refusals, their codes and HTTP statuses,
-- and the result of a fallible operation.
use passalong_server.Base.{
  ℕ, String, Bool, true, false, Option, none, some, List, ◌≡◌, refl, ◌⊎◌, inl, inr,
}

pub data ApiError : Type 0 where
  unauthenticated key_expired key_revoked forbidden_role : ApiError
  key_id_mismatch rewrite_in_progress lease_held : ApiError
  rewrite_incomplete : ℕ → ℕ → ApiError
  rewrite_ended quota_exceeded item_too_large content_mismatch not_found : ApiError
  invalid_id : List ℕ → ApiError
  invalid_request : List ℕ → ApiError
  rate_limited service_unavailable : ApiError

unfoldable pub code : ApiError → String
code unauthenticated = "UNAUTHENTICATED"
code key_expired = "KEY_EXPIRED"
code key_revoked = "KEY_REVOKED"
code forbidden_role = "FORBIDDEN_ROLE"
code key_id_mismatch = "KEY_ID_MISMATCH"
code rewrite_in_progress = "REWRITE_IN_PROGRESS"
code lease_held = "LEASE_HELD"
code (rewrite_incomplete staged source) = "REWRITE_INCOMPLETE"
code rewrite_ended = "REWRITE_ENDED"
code quota_exceeded = "QUOTA_EXCEEDED"
code item_too_large = "ITEM_TOO_LARGE"
code content_mismatch = "CONTENT_MISMATCH"
code not_found = "NOT_FOUND"
code (invalid_id reason) = "INVALID_ID"
code (invalid_request reason) = "INVALID_REQUEST"
code rate_limited = "RATE_LIMITED"
code service_unavailable = "SERVICE_UNAVAILABLE"

unfoldable pub http_status : ApiError → ℕ
http_status unauthenticated = 401
http_status key_expired = 401
http_status key_revoked = 401
http_status forbidden_role = 403
http_status key_id_mismatch = 409
http_status rewrite_in_progress = 409
http_status lease_held = 409
http_status (rewrite_incomplete staged source) = 409
http_status rewrite_ended = 409
http_status quota_exceeded = 413
http_status item_too_large = 413
http_status content_mismatch = 422
http_status not_found = 404
http_status (invalid_id reason) = 400
http_status (invalid_request reason) = 400
http_status rate_limited = 429
http_status service_unavailable = 503

unfoldable pub retryable : ApiError → Bool
retryable rewrite_in_progress = true
retryable lease_held = true
retryable rate_limited = true
retryable service_unavailable = true
retryable _ = false

-- `Result<A, ApiError>`. `spins` is no result of the program: the model's loop over candidate ids
-- stands there when its fuel is spent and the program would go on drawing.
pub data Result {ℓ} (A : Type ℓ) : Type ℓ where
  ok : A → Result A
  err : ApiError → Result A
  spins : Result A

pub Result-cases {ℓ} :
    {A : Type ℓ} (x : Result A)
    → ((a : A) × (x ≡ ok a)) ⊎ (((e : ApiError) × (x ≡ err e)) ⊎ (x ≡ spins))
Result-cases (ok a) = inl (a, refl)
Result-cases (err e) = inr (inl (e, refl))
Result-cases spins = inr (inr refl)

abbrev pub or_fail {ℓ} : {A : Type ℓ} → ApiError → Option A → Result A
or_fail e none = err e
or_fail e (some a) = ok a

infixl 5 ◌>>=◌ ◌>>◌
abbrev pub ◌>>=◌ {ℓ κ} : {A : Type ℓ} {B : Type κ} → Result A → (A → Result B) → Result B
ok a >>= f = f a
err e >>= f = err e
spins >>= f = spins

abbrev pub ◌>>◌ {ℓ} : {B : Type ℓ} → Result (Unit {0}) → Result B → Result B
m >> k = m >>= λ _. k

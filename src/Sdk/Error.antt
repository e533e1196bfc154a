-- ===== src/Sdk/Error.antt =====
-- sdk/src/error.rs: the errors of file system calls, and the result of a call.
use fs.Base.{ℕ, Bool, true, false, Text, ◌≡◌, ◌⊎◌, refl, arith, inl, inr}

-- A `Duration` is a number of nanoseconds.
pub data FsError : Type 0 where
  not_found permission_denied already_exists invalid_argument : Text → FsError
  not_directory is_directory directory_not_empty : Text → FsError
  invalid_handle : ℕ → FsError
  internal not_implemented backend_unavailable transient : Text → FsError
  remote : Text → Text → FsError
  timeout : ℕ → FsError
  circuit_breaker_open : Text → FsError
  too_many_hops : ℕ → ℕ → FsError
  conflict : Text → Text → FsError
  version_conflict : ℕ → ℕ → FsError

-- `panic` is a call that aborts by a failed bounds check or an `unwrap` of `None`.
pub data FsResult {ℓ} (A : Type ℓ) : Type ℓ where
  ok : A → FsResult A
  err : FsError → FsResult A
  panic : FsResult A

infixl 5 ◌>>=◌
abbrev pub ◌>>=◌ {ℓ κ} : {A : Type ℓ} {B : Type κ} → FsResult A → (A → FsResult B) → FsResult B
ok a >>= f = f a
err e >>= f = err e
panic >>= f = panic

pub FsResult-cases {ℓ} :
    {A : Type ℓ} (r : FsResult A)
    → ((a : A) × (r ≡ ok a)) ⊎ ((e : FsError) × (r ≡ err e)) ⊎ (r ≡ panic)
FsResult-cases (ok a) = inl (a, refl)
FsResult-cases (err e) = inr (inl (e, refl))
FsResult-cases panic = inr (inr refl)

unfoldable pub is_retryable : FsError → Bool
is_retryable (transient m) = true
is_retryable (timeout d) = true
is_retryable (backend_unavailable m) = true
is_retryable _ = false

unfoldable pub http_status : FsError → ℕ
http_status (not_found p) = 404
http_status (permission_denied p) = 403
http_status (already_exists p) = 409
http_status (conflict a b) = 409
http_status (version_conflict a b) = 409
http_status (invalid_argument m) = 400
http_status (invalid_handle h) = 400
http_status (not_directory p) = 400
http_status (is_directory p) = 400
http_status (directory_not_empty p) = 400
http_status (not_implemented m) = 501
http_status (transient m) = 503
http_status (backend_unavailable m) = 503
http_status (circuit_breaker_open s) = 503
http_status (timeout d) = 504
http_status (too_many_hops d m) = 508
http_status (internal m) = 500
http_status (remote n m) = 500

-- A retryable error is reported to HTTP clients as 503 or 504.
pub retryable-status :
    (e : FsError) → is_retryable e ≡ true → (http_status e ≡ 503) ⊎ (http_status e ≡ 504)
unfolding is_retryable http_status
retryable-status (not_found p) h = ground arith
retryable-status _ h = ground arith

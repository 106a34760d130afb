-- ===== src/Errors.antt =====
-- src/asset_store_core/errors.py: the exception classes, as the error values of a `Result`. The
-- messages are not modelled; the attributes that a caller reads (`scope`, `retry_after`) are.
use prototype_cache.Prelude.{ℕ, Bool, true, false, Option, none, some, ◌≡◌, refl, ◌⊎◌, inl, inr}

pub data QuotaScope : Type 0 where
  partition bucket : QuotaScope

pub data Error : Type 0 where
  service_auth validation alias_conflict alias_not_found alias_immutable : Error
  asset_not_found object_not_found presign_not_supported checksum_mismatch : Error
  capability_denied capability_already_consumed capability_capacity : Error
  invalid_state_transition asset_expired asset_deleted capacity_exceeded : Error
  quota_exceeded : QuotaScope → Error
  upload_too_large registry_unavailable work_capacity : Error
  capability_rate : ℕ → Error
  -- `ValueError` of the language, where the code does not catch it
  value_error : Error
  -- `RuntimeError` and `KeyError`, likewise
  runtime_error key_error : Error
  -- `OverflowError`: a time after `datetime.max`
  overflow_error : Error
  -- what the client of an object store raises of its own
  store_failure : Error
  -- `RequestValidationError` of the web framework
  request_validation : Error
  -- `ClientDisconnect` of the web framework
  client_disconnect : Error
  -- src/fetcher_service: `InvalidUrl`, `InvalidRequestError`, `ContentMismatchError`, `UpstreamError`
  invalid_url invalid_request content_mismatch upstream_error : Error

-- What a function that may raise gives back.
pub data Result {ℓ} (A : Type ℓ) : Type ℓ where
  ok : A → Result A
  err : Error → Result A

module _ {ℓ κ} {A : Type ℓ} {B : Type κ} where
  infixl 10 ◌>>=◌
  -- what comes after a call runs only if the call returns
  abbrev pub ◌>>=◌ : Result A → (A → Result B) → Result B
  err raised >>= after = err raised
  ok value >>= after = after value

module _ {ℓ} {B : Type ℓ} where
  infixl 10 ◌>>◌
  abbrev pub ◌>>◌ : Result (Unit {0}) → Result B → Result B
  check >> after = check >>= (λ _. after)

-- `if test: raise e`
abbrev pub raise_if : Bool → Error → Result (Unit {0})
raise_if true e = err e
raise_if false e = ok tt

-- The value of a lookup that must succeed.
abbrev pub or_raise {ℓ} : {A : Type ℓ} → Option A → Error → Result A
or_raise none e = err e
or_raise (some a) e = ok a

pub Result-cases {ℓ} :
    {A : Type ℓ} (r : Result A) → ((a : A) × (r ≡ ok a)) ⊎ ((e : Error) × (r ≡ err e))
Result-cases (ok a) = inl (a, refl)
Result-cases (err e) = inr (e, refl)

-- What a check that passed tells, and what follows it.
pub raise_if-ok {ℓ} :
    {A : Type ℓ} (t : Bool) (e : Error) (k : Result A) {a : A}
    → (raise_if t e >> k) ≡ ok a
    → (t ≡ false) × (k ≡ ok a)
raise_if-ok true e k h = cc
raise_if-ok false e k h = (refl, h)

-- The call before an arrow returned, if the whole did.
pub >>=-ok {ℓ κ} :
    {A : Type ℓ} {B : Type κ} (call : Result A) (after : A → Result B) {result : B}
    → (call >>= after) ≡ ok result
    → (value : A) × (call ≡ ok value) × (after value ≡ ok result)
>>=-ok (err raised) after returned = cc
>>=-ok (ok value) after returned = (value, refl, returned)

-- ===== src/IssuanceRate.antt =====
-- src/asset_store_core/issuance_rate.py: `IssuanceRateLimiter`, a token bucket for each identity.
-- A float is the number that its bits write; the arithmetic of floats, and what `monotonic()`
-- returns when it is read for the n-th time, are parameters. The lock makes a method one step.
use prototype_cache.Prelude.{
  ℕ, ◌+◌, String, Bool, true, false, List, [], ◌∷◌, none, some, leb, if◌then◌else◌,
}
use prototype_cache.Prelude.Int.{ℤ, positive?}
use prototype_cache.Prelude.Dict.{Dict, lookup, insert, text_key}
use prototype_cache.Errors.{
  Result, ok, err, validation, service_auth, capability_rate, or_raise, ◌>>=◌,
}
use prototype_cache.Exec.{Exec}

abbrev pub Float : Type 0
Float = ℕ

pub record Floats : Type 0 where
  pub monotonic : ℕ → Float
  pub float : ℕ → Float
  -- `m / n` of two `int`s
  pub quotient : ℕ → ℕ → Float
  pub add : Float → Float → Float
  pub subtract : Float → Float → Float
  pub multiply : Float → Float → Float
  pub divide : Float → Float → Float
  pub less : Float → Float → Bool
  -- `math.ceil`, where the result is not negative
  pub ceil : Float → ℕ

pub record Credit : Type 0 where
  pub tokens : Float
  pub updated_at : Float

pub record IssuanceRateLimiter : Type 0 where
  pub rate : Float
  pub burst : ℕ
  pub credit : Dict String Credit
  -- how often its clock has been read
  pub readings : ℕ

module _ (floats : Floats) where
  -- `{identity: _Credit(float(burst), now) for identity in identities}`
  unfoldable pub full_credit : ℕ → List String → Dict String Credit
  full_credit burst [] = []
  full_credit burst (identity ∷ rest) =
      insert identity (record { tokens = floats.float burst; updated_at = floats.monotonic 0 })
        (full_credit burst rest)

  unfoldable pub new_limiter : List String → ℤ → ℤ → Result IssuanceRateLimiter
  unfolding full_credit
  new_limiter identities per_minute burst = do
    rate ← or_raise (positive? per_minute) validation
    n ← or_raise (positive? burst) validation
    ok (record {
      rate = floats.quotient rate 60;
      burst = n;
      credit = full_credit n identities;
      readings = 1;
    })

  -- `min(a, b)` and `max(a, b)`
  abbrev least : Float → Float → Float
  least a b = if floats.less b a then b else a

  abbrev greatest : Float → Float → Float
  greatest a b = if floats.less a b then b else a

  -- the tokens of a credit at the time `now`
  unfoldable pub refilled : IssuanceRateLimiter → Credit → Float → Float
  refilled s credit now = least (floats.float s.burst) (
      floats.add credit.tokens (
        floats.multiply (greatest (floats.float 0) (floats.subtract now credit.updated_at)) s.rate))

  -- `max(1, math.ceil((1 - tokens) / rate))`
  abbrev delay : IssuanceRateLimiter → Float → ℕ
  delay s tokens =
      let seconds = floats.ceil (floats.divide (floats.subtract (floats.float 1) tokens) s.rate) in
      if leb seconds 1 then 1 else seconds

  abbrev store_credit : String → Float → Float → IssuanceRateLimiter → IssuanceRateLimiter
  store_credit identity tokens updated_at s = record s {
    credit = insert identity (record { tokens = tokens; updated_at = updated_at }) s.credit;
  }

  -- the body of `admit`, once the identity is known to have a credit
  unfoldable pub spend : String → Credit → Exec IssuanceRateLimiter (Unit {0})
  unfolding refilled
  spend identity credit s =
      let now = floats.monotonic s.readings in
      let tokens = refilled s credit now in
      let updated_at = greatest now credit.updated_at in
      let read = record s { readings = s.readings + 1 } in
      elim (floats.less tokens (floats.float 1)) [
        | true ↦
            (err (capability_rate (delay s tokens)), store_credit identity tokens updated_at read)
        | false ↦
            (ok tt, store_credit identity (floats.subtract tokens (floats.float 1)) updated_at read)
      ]

  unfoldable pub admit : String → Exec IssuanceRateLimiter (Unit {0})
  admit identity s = elim (lookup identity s.credit) [
    | none ↦ (err service_auth, s)
    | some credit ↦ spend identity credit s
  ]

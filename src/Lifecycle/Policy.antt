-- ===== src/Lifecycle/Policy.antt =====
-- `SweepPolicy` and its validation, and `Action`.
use prototype_cache.Prelude.{
  ℕ, ◌+◌, ◌*◌, String, Bool, true, false, not, ◌&&◌, ◌||◌, List, [], ◌∷◌, contains, ltb,
}
use prototype_cache.Prelude.Int.{ℤ, pos, negsuc, positive?, to_ℕ?}
use prototype_cache.Prelude.Dict.{Dict}
use prototype_cache.Errors.{Result, ok, value_error, raise_if, or_raise, ◌>>=◌, ◌>>◌}
use prototype_cache.Models.{Asset, AssetState, Ratio, all_in}
use prototype_cache.Paths.{storage_buckets}

pub record SweepPolicy : Type 0 where
  pub pending_seconds : ℕ
  pub grace_seconds : Dict String ℕ
  pub capacity_bytes : Dict String ℕ
  pub pressure_trigger : Ratio
  pub pressure_target : Ratio
  pub quota_trigger : Ratio
  pub quota_target : Ratio

pub record Action : Type 0 where
  pub asset : Asset
  pub state : AssetState
  pub reason : String
  pub purge : Bool

-- `m / c < n / d` of two integers over positive denominators
unfoldable pub fraction_less : ℤ → ℕ → ℤ → ℕ → Bool
fraction_less (pos m) c (pos n) d = ltb (m * d) (n * c)
fraction_less (pos m) c (negsuc n) d = false
fraction_less (negsuc m) c (pos n) d = true
fraction_less (negsuc m) c (negsuc n) d = ltb ((n + 1) * c) ((m + 1) * d)

-- `x < y` of two finite floats
unfoldable pub ratio_less : Ratio → Ratio → Bool
unfolding fraction_less
ratio_less x y = fraction_less x.numerator x.denominator y.numerator y.denominator

abbrev zero_ratio : Ratio
zero_ratio = record { numerator = pos 0; denominator = 1 }

abbrev one_ratio : Ratio
one_ratio = record { numerator = pos 1; denominator = 1 }

-- `Field(gt=0, le=1)`
unfoldable pub is_trigger : Ratio → Bool
unfolding ratio_less
is_trigger r = ratio_less zero_ratio r && not (ratio_less one_ratio r)

-- `Field(ge=0, lt=1)`
unfoldable pub is_target : Ratio → Bool
unfolding ratio_less
is_target r = not (ratio_less r zero_ratio) && ratio_less r one_ratio

abbrev names_of : Dict String ℤ → List String
names_of [] = []
names_of ((bucket, n) ∷ rest) = bucket ∷ names_of rest

-- the values of `grace_seconds`, none of them negative
unfoldable pub grace_periods : Dict String ℤ → Result (Dict String ℕ)
grace_periods [] = ok []
grace_periods ((bucket, n) ∷ rest) = do
  seconds ← or_raise (to_ℕ? n) value_error
  others ← grace_periods rest
  ok ((bucket, seconds) ∷ others)

-- the entries of `capacity_bytes`, each positive and under the name of a bucket
unfoldable pub budgets : Dict String ℤ → Result (Dict String ℕ)
budgets [] = ok []
budgets ((bucket, n) ∷ rest) = do
  raise_if (not (contains bucket storage_buckets)) value_error
  bytes ← or_raise (positive? n) value_error
  others ← budgets rest
  ok ((bucket, bytes) ∷ others)

-- the fields' constraints and `validate_policy`
unfoldable pub new_policy :
    ℤ → Dict String ℤ → Dict String ℤ → Ratio → Ratio → Ratio → Ratio → Result SweepPolicy
unfolding is_trigger is_target grace_periods budgets
new_policy pending_seconds grace_seconds capacity_bytes pressure_trigger pressure_target
      quota_trigger quota_target =
    do
      pending ← or_raise (positive? pending_seconds) value_error
      raise_if (not (is_trigger pressure_trigger && is_trigger quota_trigger)) value_error
      raise_if (not (is_target pressure_target && is_target quota_target)) value_error
      let buckets = names_of grace_seconds
      raise_if (not (all_in buckets storage_buckets && all_in storage_buckets buckets)) value_error
      grace ← grace_periods grace_seconds
      capacity ← budgets capacity_bytes
      raise_if
          (not (ratio_less pressure_target pressure_trigger)
            || not (ratio_less quota_target quota_trigger))
          value_error
      ok (record {
        pending_seconds = pending;
        grace_seconds = grace;
        capacity_bytes = capacity;
        pressure_trigger = pressure_trigger;
        pressure_target = pressure_target;
        quota_trigger = quota_trigger;
        quota_target = quota_target;
      })

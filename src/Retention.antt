-- ===== src/Retention.antt =====
-- src/asset_store_core/retention.py: deadlines, which assets may be read, which maintenance
-- transitions are allowed, and the physical capacity of a bucket.
pub mod Deadlines
use prototype_cache.Prelude.{
  ℕ, ◌+◌, ◌*◌, String, Bool, false, not, ◌&&◌, ◌||◌, Option, none, some, List, [], ◌∷◌, ltb, leb,
  is_some, contains, str_eq, if◌then◌else◌,
}
use prototype_cache.Prelude.Int.{ℤ, pos, negsuc, positive?}
use prototype_cache.Prelude.Dict.{Dict, lookup, text_key}
use prototype_cache.Errors.{
  Result, ok, err, validation, value_error, asset_deleted, asset_expired, capacity_exceeded,
  invalid_state_transition, raise_if, or_raise, ◌>>=◌, ◌>>◌,
}
use prototype_cache.Models.{
  Asset, AssetState, pending, available, expired, deleted, state_eq, Ratio,
}
use prototype_cache.Env.{Env, Json, object, not_object}
use prototype_cache.Paths.{storage_buckets}

-- `datetime.max`, in microseconds since the epoch
abbrev pub max_time : ℕ
max_time = 253402300799999999

abbrev pub second : ℕ
second = 1000000

-- `now + timedelta(seconds=ttl)`; past `datetime.max` it overflows
unfoldable pub add_seconds : ℕ → ℕ → Result ℕ
add_seconds now ttl =
    if leb (now + ttl * second) max_time then ok (now + ttl * second) else err validation

-- `maximum is not None and ttl_seconds > maximum`
abbrev exceeds : ℕ → Option ℕ → Bool
exceeds ttl none = false
exceeds ttl (some maximum) = ltb maximum ttl

-- the last part of `expiry_for`, once the bucket has given its maximum and its default
unfoldable pub bounded_expiry : Option ℤ → Option ℕ → ℕ → Result (Option ℕ)
unfolding add_seconds
bounded_expiry none maximum now = ok none
bounded_expiry (some ttl_seconds) maximum now = do
  ttl ← or_raise (positive? ttl_seconds) validation
  raise_if (exceeds ttl maximum) validation
  deadline ← add_seconds now ttl
  ok (some deadline)

-- `x if ttl_seconds is None else ttl_seconds`
abbrev or_default : Option ℤ → ℕ → Option ℤ
or_default none d = some (pos d)
or_default (some t) d = some t

unfoldable pub expiry_for : Env → String → Option ℤ → ℕ → Result (Option ℕ)
unfolding bounded_expiry
expiry_for env space ttl_seconds now =
    if str_eq space "tmp"
    then bounded_expiry (or_default ttl_seconds 86400) (some (7 * 86400)) now
    else if str_eq space "results"
    then (do
      configured ← or_raise env.results_max_ttl value_error
      maximum ← or_raise (positive? configured) validation
      bounded_expiry (or_default ttl_seconds maximum) (some maximum) now)
    else bounded_expiry ttl_seconds none now

-- `expires_at is not None and expires_at <= now`
unfoldable pub is_past : Option ℕ → ℕ → Bool
is_past none now = false
is_past (some t) now = leb t now

unfoldable pub require_live : Asset → ℕ → Result (Unit {0})
unfolding is_past
require_live asset now = do
  raise_if (state_eq asset.state deleted) asset_deleted
  raise_if
      (state_eq asset.state expired
        || state_eq asset.state available && is_past asset.expires_at now)
      asset_expired

unfoldable pub validate_cleanup_transition : Asset → AssetState → Bool → Result (Unit {0})
validate_cleanup_transition asset state payload_deleted =
    let allowed =
      state_eq state expired && state_eq asset.state available && not payload_deleted
      || state_eq state deleted
        && (state_eq asset.state pending
            || state_eq asset.state expired
            || state_eq asset.state deleted)
        && (not payload_deleted || state_eq asset.state deleted) in
    raise_if (not allowed || is_some asset.payload_deleted_at) invalid_state_transition

-- the values of the budget, if each is a positive integer under the name of a bucket
unfoldable pub positive_limits : List (String × Option ℤ) → Result (Dict String ℕ)
positive_limits [] = ok []
positive_limits ((key, none) ∷ rest) = err validation
positive_limits ((key, some value) ∷ rest) = do
  raise_if (not (contains key storage_buckets)) validation
  bytes ← or_raise (positive? value) validation
  others ← positive_limits rest
  ok ((key, bytes) ∷ others)

abbrev limits_of : Json → Result (Dict String ℕ)
limits_of (object entries) = positive_limits entries
limits_of not_object = err validation

unfoldable pub capacity_limits : Env → Result (Dict String ℕ)
unfolding positive_limits
capacity_limits env = do json ← or_raise env.capacity_bytes validation; limits_of json

-- `0 < ratio <= 1`
unfoldable pub is_unit_ratio : Ratio → Bool
is_unit_ratio r = elim r.numerator [ pos n ↦ ltb 0 n && leb n r.denominator | negsuc n ↦ false ]

unfoldable pub enforce_capacity : Env → String → ℕ → Result (Unit {0})
unfolding capacity_limits is_unit_ratio
enforce_capacity env space prospective_bytes = do
  limits ← capacity_limits env
  elim (lookup space limits) [
    | none ↦ ok tt
    | some limit ↦ do
      ratio ← or_raise env.capacity_hard_ratio value_error
      raise_if (not (is_unit_ratio ratio)) validation
      raise_if (env.reaches prospective_bytes limit ratio) capacity_exceeded
  ]

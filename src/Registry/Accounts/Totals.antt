-- ===== src/Registry/Accounts/Totals.antt =====
-- What each counter is to count: the available assets whose names normalise to its own.
use prototype_cache.Prelude.{
  ℕ, ◌+◌, ◌-◌, String, ◌≡◌, Bool, true, false, ◌&&◌, some, arith, get_or, str_eq, eq_iff,
  if◌then◌else◌,
}
use prototype_cache.Prelude.Dict.{
  Dict, lookup, insert, total, measure, text_key, pair_key, pair_eq, pair_eq_iff, lookup-insert,
  total-insert,
}
use prototype_cache.Errors.{Result, ok, err}
use prototype_cache.Models.{Asset, available, state_eq, PartitionQuota, BucketQuota}
use prototype_cache.Paths.{normalize_space, normalize_partition_id}
use prototype_cache.Registry.Accounts.Effects.{
  PartitionQuotas, BucketQuotas, charge_partition, charge_bucket, refund_partition, refund_bucket,
}

-- `normalised` is the name `name`
abbrev pub is_named : Result String → String → Bool
is_named (ok n) name = str_eq n name
is_named (err e) name = false

-- The asset counts for a bucket.
unfoldable pub counts_for_bucket : String → Asset → Bool
counts_for_bucket b a = state_eq a.state available && is_named (normalize_space a.space) b

-- The asset counts for a partition of a bucket.
unfoldable pub counts_for : String → String → Asset → Bool
unfolding counts_for_bucket
counts_for b q a = counts_for_bucket b a && is_named (normalize_partition_id a.partition_id) q

abbrev pub size_of : Asset → ℕ
size_of a = get_or a.size_bytes 0

unfoldable pub bytes_for : String → String → Asset → ℕ
bytes_for b q a = if counts_for b q a then size_of a else 0

unfoldable pub one_for : String → String → Asset → ℕ
one_for b q a = if counts_for b q a then 1 else 0

unfoldable pub bytes_for_bucket : String → Asset → ℕ
bytes_for_bucket b a = if counts_for_bucket b a then size_of a else 0

abbrev pub Assets : Type 0
Assets = Dict String Asset

abbrev pub bytes_used : PartitionQuota → ℕ
bytes_used pq = pq.used_bytes

abbrev pub assets_used : PartitionQuota → ℕ
assets_used pq = pq.used_asset_count

abbrev pub bucket_used : BucketQuota → ℕ
bucket_used bq = bq.used_bytes

-- The counters agree with the assets.
pub record IsAccounted (A : Assets) (P : PartitionQuotas) (B : BucketQuotas) : Type 0 where
  pub bytes : (b q : String) → measure bytes_used (lookup (b, q) P) ≡ total (bytes_for b q) A
  pub count : (b q : String) → measure assets_used (lookup (b, q) P) ≡ total (one_for b q) A
  pub bucket : (b : String) → measure bucket_used (lookup b B) ≡ total (bytes_for_bucket b) A

-- An asset that does not count changes no sum by being written, nor does one that counts as before.
module _ (id : String) (b : Asset) (A : Assets) (f : Asset → ℕ) where
  pub total-write :
      {a : Asset} → lookup id A ≡ some a → total f (insert id b A) + f a ≡ total f A + f b
  total-write found = ground (arith, total-insert f id b A)

-- The names of an available asset are `b` and `q`.
pub record CountsFor (a : Asset) (b q : String) : Type 0 where
  pub live : state_eq a.state available ≡ true
  pub bucket : normalize_space a.space ≡ ok b
  pub partition : normalize_partition_id a.partition_id ≡ ok q

module _ {a : Asset} {b q : String} (h : CountsFor a b q) (c : String) where
  pub bytes_for-eq :
      (p : String) → bytes_for c p a ≡ (if pair_eq (b, q) (c, p) then size_of a else 0)
  unfolding bytes_for counts_for
  bytes_for-eq p = ground (arith, h.live, h.bucket, h.partition)

  pub one_for-eq : (p : String) → one_for c p a ≡ (if pair_eq (b, q) (c, p) then 1 else 0)
  unfolding one_for counts_for
  one_for-eq p = ground (arith, h.live, h.bucket, h.partition)

  pub bytes_for_bucket-eq : bytes_for_bucket c a ≡ (if str_eq b c then size_of a else 0)
  unfolding bytes_for_bucket counts_for_bucket
  bytes_for_bucket-eq = ground (arith, h.live, h.bucket)

module _ (a : Asset) (idle : state_eq a.state available ≡ false) (c : String) where
  pub bytes_for_idle : (p : String) → bytes_for c p a ≡ 0
  unfolding bytes_for counts_for
  bytes_for_idle p = ground arith

  pub one_for_idle : (p : String) → one_for c p a ≡ 0
  unfolding one_for counts_for
  one_for_idle p = ground arith

  pub bytes_for_bucket_idle : bytes_for_bucket c a ≡ 0
  unfolding bytes_for_bucket counts_for_bucket
  bytes_for_bucket_idle = ground arith

-- What each effect does to the count under any key.
module _ (n : ℕ) (b q c p : String) (P : PartitionQuotas) where
  pub charged_bytes :
      measure bytes_used (lookup (c, p) (charge_partition n (b, q) P))
      ≡ (if pair_eq (b, q) (c, p) then n else 0) + measure bytes_used (lookup (c, p) P)
  unfolding charge_partition
  charged_bytes = rw lookup-insert (ground (arith, pair_eq_iff (b, q) (c, p)))

  pub charged_count :
      measure assets_used (lookup (c, p) (charge_partition n (b, q) P))
      ≡ (if pair_eq (b, q) (c, p) then 1 else 0) + measure assets_used (lookup (c, p) P)
  unfolding charge_partition
  charged_count = rw lookup-insert (ground (arith, pair_eq_iff (b, q) (c, p)))

  pub refunded_bytes :
      measure bytes_used (lookup (c, p) (refund_partition n (b, q) P))
      ≡ measure bytes_used (lookup (c, p) P) - (if pair_eq (b, q) (c, p) then n else 0)
  unfolding refund_partition
  refunded_bytes = rw lookup-insert (ground (arith, pair_eq_iff (b, q) (c, p)))

  pub refunded_count :
      measure assets_used (lookup (c, p) (refund_partition n (b, q) P))
      ≡ measure assets_used (lookup (c, p) P) - (if pair_eq (b, q) (c, p) then 1 else 0)
  unfolding refund_partition
  refunded_count = rw lookup-insert (ground (arith, pair_eq_iff (b, q) (c, p)))

module _ (n : ℕ) (b c : String) (B : BucketQuotas) where
  pub charged_bucket :
      measure bucket_used (lookup c (charge_bucket n b B))
      ≡ (if str_eq b c then n else 0) + measure bucket_used (lookup c B)
  unfolding charge_bucket
  charged_bucket = rw lookup-insert (ground (arith, eq_iff b c))

  pub refunded_bucket :
      measure bucket_used (lookup c (refund_bucket n b B))
      ≡ measure bucket_used (lookup c B) - (if str_eq b c then n else 0)
  unfolding refund_bucket
  refunded_bucket = rw lookup-insert (ground (arith, eq_iff b c))

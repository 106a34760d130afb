-- ===== src/Registry/Accounts/Effects.antt =====
-- What `_acquire_quota` and `_release_quota` do to the two dictionaries of counters.
use prototype_cache.Prelude.{ℕ, ◌+◌, ◌-◌, String, ◌≡◌, some, inl, inr, arith, get_or, Option-cases}
use prototype_cache.Prelude.Dict.{Dict, lookup, insert, text_key, pair_key}
use prototype_cache.Errors.{ok}
use prototype_cache.Models.{PartitionQuota, BucketQuota}
use prototype_cache.Paths.{normalize_space, normalize_partition_id}
use prototype_cache.Registry.State.{Registry}
use prototype_cache.Registry.Quota.{
  new_partition_quota, new_bucket_quota, partition_quota, bucket_quota,
}
use prototype_cache.Registry.Counters.{acquire_quota, return_quota}

abbrev pub PartitionQuotas : Type 0
PartitionQuotas = Dict (String × String) PartitionQuota

abbrev pub BucketQuotas : Type 0
BucketQuotas = Dict String BucketQuota

-- The counters of a partition, which are zero until they are first written.
abbrev pub current_partition : PartitionQuotas → String × String → PartitionQuota
current_partition P (space, partition_id) =
    get_or (lookup (space, partition_id) P) (new_partition_quota space partition_id)

abbrev pub current_bucket : BucketQuotas → String → BucketQuota
current_bucket B space = get_or (lookup space B) (new_bucket_quota space)

unfoldable pub charge_partition : ℕ → String × String → PartitionQuotas → PartitionQuotas
charge_partition n (space, partition_id) P =
    let pq = current_partition P (space, partition_id) in
    insert (space, partition_id)
      (record pq { used_bytes = pq.used_bytes + n; used_asset_count = pq.used_asset_count + 1 }) P

unfoldable pub charge_bucket : ℕ → String → BucketQuotas → BucketQuotas
charge_bucket n space B =
    let bq = current_bucket B space in insert space (record bq { used_bytes = bq.used_bytes + n }) B

unfoldable pub refund_partition : ℕ → String × String → PartitionQuotas → PartitionQuotas
refund_partition n (space, partition_id) P =
    let pq = current_partition P (space, partition_id) in
    insert (space, partition_id)
      (record pq { used_bytes = pq.used_bytes - n; used_asset_count = pq.used_asset_count - 1 }) P

unfoldable pub refund_bucket : ℕ → String → BucketQuotas → BucketQuotas
refund_bucket n space B =
    let bq = current_bucket B space in insert space (record bq { used_bytes = bq.used_bytes - n }) B

-- Counters stand under the names that they carry.
pub record IsKeyed (P : PartitionQuotas) (B : BucketQuotas) : Type 0 where
  pub partition :
      (space partition_id : String) (pq : PartitionQuota)
      → lookup (space, partition_id) P ≡ some pq
      → (pq.space ≡ space) × (pq.partition_id ≡ partition_id)
  pub bucket : (space : String) (bq : BucketQuota) → lookup space B ≡ some bq → bq.space ≡ space

module _ {P : PartitionQuotas} {B : BucketQuotas} (keyed : IsKeyed P B) (b q : String) where
  pub current_partition-names :
      ((current_partition P (b, q)).space ≡ b) × ((current_partition P (b, q)).partition_id ≡ q)
  current_partition-names = elim (Option-cases (lookup (b, q) P)) [
    | inl absent ↦ ground arith
    | inr (pq, found) ↦ ground (arith, keyed.partition b q pq found)
  ]

  pub current_bucket-name : (current_bucket B b).space ≡ b
  current_bucket-name = elim (Option-cases (lookup b B)) [
    | inl absent ↦ ground arith
    | inr (bq, found) ↦ ground (arith, keyed.bucket b bq found)
  ]

-- The counters are keyed, and the names of a partition are normalised to `b` and `q`.
pub record IsPlaced (s : Registry) (space partition_id b q : String) : Type 0 where
  pub keyed : IsKeyed s.partition_quotas s.bucket_quotas
  pub bucket : normalize_space space ≡ ok b
  pub partition : normalize_partition_id partition_id ≡ ok q

module _ (space partition_id b q : String) (s : Registry)
    (h : IsPlaced s space partition_id b q) where
  pub acquire_quota_lem :
      (n : ℕ)
      → acquire_quota space partition_id n s ≡ (
        ok tt,
        record s {
          partition_quotas = charge_partition n (b, q) s.partition_quotas;
          bucket_quotas = charge_bucket n b s.bucket_quotas;
        },
      )
  unfolding acquire_quota partition_quota bucket_quota charge_partition charge_bucket
  acquire_quota_lem n =
      ground (arith, current_partition-names h.keyed b q, current_bucket-name h.keyed b)

  pub return_quota_lem :
      (n : ℕ)
      → return_quota space partition_id n s ≡ (
        ok tt,
        record s {
          partition_quotas = refund_partition n (b, q) s.partition_quotas;
          bucket_quotas = refund_bucket n b s.bucket_quotas;
        },
      )
  unfolding return_quota partition_quota bucket_quota refund_partition refund_bucket
  return_quota_lem n =
      ground (arith, current_partition-names h.keyed b q, current_bucket-name h.keyed b)

-- ===== src/Registry/Accounts/Preserved.antt =====
-- Every change of the registry keeps the counters equal to what they are to count.
use prototype_cache.Prelude.{String, ◌≡◌, false, some, arith}
use prototype_cache.Prelude.Dict.{lookup, insert, text_key, pair_key}
use prototype_cache.Models.{Asset, available, state_eq}
use prototype_cache.Registry.Accounts.Effects.{
  PartitionQuotas, BucketQuotas, charge_partition, charge_bucket, refund_partition, refund_bucket,
}
use prototype_cache.Registry.Accounts.Totals.{
  Assets, IsAccounted, CountsFor, size_of, bytes_for, one_for, bytes_for_bucket, total-write,
  bytes_for-eq, one_for-eq, bytes_for_bucket-eq, bytes_for_idle, one_for_idle,
  bytes_for_bucket_idle, charged_bytes, charged_count, charged_bucket, refunded_bytes,
  refunded_count, refunded_bucket,
}

module _ {A : Assets} {P : PartitionQuotas} {B : BucketQuotas} (h : IsAccounted A P B) (id : String)
    (a b : Asset) (found : lookup id A ≡ some a) where
  -- The new version counts for no more and no less than the old one.
  pub IsAccounted-same :
      ((c p : String) → bytes_for c p b ≡ bytes_for c p a)
      → ((c p : String) → one_for c p b ≡ one_for c p a)
      → ((c : String) → bytes_for_bucket c b ≡ bytes_for_bucket c a)
      → IsAccounted (insert id b A) P B
  IsAccounted-same x y z = record {
    bytes = λ c p. omega (arith, h.bytes c p, x c p, total-write id b A (bytes_for c p) found);
    count = λ c p. omega (arith, h.count c p, y c p, total-write id b A (one_for c p) found);
    bucket = λ c. omega (arith, h.bucket c, z c, total-write id b A (bytes_for_bucket c) found);
  }

  module _ (c q : String) (counts : CountsFor b c q)
      (idle : state_eq a.state available ≡ false) where
    pub IsAccounted-charge :
        IsAccounted
          (insert id b A)
          (charge_partition (size_of b) (c, q) P)
          (charge_bucket (size_of b) c B)
    IsAccounted-charge = record {
      bytes = λ d p. omega (
        arith,
        h.bytes d p,
        charged_bytes (size_of b) c q d p P,
        total-write id b A (bytes_for d p) found,
        bytes_for-eq counts d p,
        bytes_for_idle a idle d p,
      );
      count = λ d p. omega (
        arith,
        h.count d p,
        charged_count (size_of b) c q d p P,
        total-write id b A (one_for d p) found,
        one_for-eq counts d p,
        one_for_idle a idle d p,
      );
      bucket = λ d. omega (
        arith,
        h.bucket d,
        charged_bucket (size_of b) c d B,
        total-write id b A (bytes_for_bucket d) found,
        bytes_for_bucket-eq counts d,
        bytes_for_bucket_idle a idle d,
      );
    }

  module _ (c q : String) (counts : CountsFor a c q)
      (idle : state_eq b.state available ≡ false) where
    pub IsAccounted-refund :
        IsAccounted
          (insert id b A)
          (refund_partition (size_of a) (c, q) P)
          (refund_bucket (size_of a) c B)
    IsAccounted-refund = record {
      bytes = λ d p. omega (
        arith,
        h.bytes d p,
        refunded_bytes (size_of a) c q d p P,
        total-write id b A (bytes_for d p) found,
        bytes_for-eq counts d p,
        bytes_for_idle b idle d p,
      );
      count = λ d p. omega (
        arith,
        h.count d p,
        refunded_count (size_of a) c q d p P,
        total-write id b A (one_for d p) found,
        one_for-eq counts d p,
        one_for_idle b idle d p,
      );
      bucket = λ d. omega (
        arith,
        h.bucket d,
        refunded_bucket (size_of a) c d B,
        total-write id b A (bytes_for_bucket d) found,
        bytes_for_bucket-eq counts d,
        bytes_for_bucket_idle b idle d,
      );
    }

-- ===== src/Registry/Accounts/WellFormed.antt =====
-- The invariant of `InMemoryAssetRegistry`, and that every change of the registry keeps it.
use prototype_cache.Prelude.{
  ℕ, String, ◌≡◌, ◌≢◌, refl, true, false, none, some, arith, is_some, str_eq, eq_iff, inl, inr,
  Bool-cases, subst, sym, ◌∙◌,
}
use prototype_cache.Prelude.Dict.{
  lookup, insert, total-insert, text_key, pair_key, pair_eq, pair_eq_iff, lookup-insert,
}
use prototype_cache.Models.{Asset, AssetState, pending, available, expired, deleted, state_eq}
use prototype_cache.Registry.State.{Registry}
use prototype_cache.Registry.Accounts.Effects.{
  PartitionQuotas, BucketQuotas, IsKeyed, charge_partition, charge_bucket, refund_partition,
  refund_bucket, current_partition, current_bucket, current_partition-names, current_bucket-name,
}
use prototype_cache.Registry.Accounts.Totals.{
  Assets, IsAccounted, bytes_for, one_for, bytes_for_bucket, counts_for, counts_for_bucket,
  bytes_for_idle, one_for_idle, bytes_for_bucket_idle,
}
use prototype_cache.Registry.Accounts.Changes.{
  HasNames, SameIdentity, SameCharge, can_charge, is_gone, can_lapse,
}
use prototype_cache.Registry.Accounts.Preserved.{IsAccounted-same}

-- What holds of each asset under its identifier.
pub record IsFiled (id : String) (a : Asset) : Type 0 where
  pub filed : a.asset_id ≡ id
  pub names : HasNames a
  pub fenced : is_some a.payload_deleted_at ≡ true → a.state ≡ deleted

abbrev pub AllFiled : Assets → Type 0
AllFiled A = (id : String) (a : Asset) → lookup id A ≡ some a → IsFiled id a

pub record IsWellFormed (s : Registry) : Type 0 where
  pub keyed : IsKeyed s.partition_quotas s.bucket_quotas
  pub accounted : IsAccounted s.assets s.partition_quotas s.bucket_quotas
  pub filed : AllFiled s.assets

pub AllFiled-insert :
    (A : Assets) (id : String) (b : Asset) → AllFiled A → IsFiled id b → AllFiled (insert id b A)
AllFiled-insert A id b h new j c found = elim (Bool-cases (str_eq id j)) [
  | inl same ↦
      let e : id ≡ j = (eq_iff id j).0 same in
      let e' : b ≡ c = ground (arith, lookup-insert id j b A) in
      subst (λ k. IsFiled k c) e (subst (IsFiled id) e' new)
  | inr other ↦ h j c (ground (arith, lookup-insert id j b A))
]

-- A key is written under the names that its counters carry.
pub IsKeyed-partition :
    (P : PartitionQuotas) (B : BucketQuotas) (b q : String)
    (pq : prototype_cache.Models.PartitionQuota)
    → IsKeyed P B
    → (pq.space ≡ b) × (pq.partition_id ≡ q)
    → IsKeyed (insert (b, q) pq P) B
IsKeyed-partition P B b q pq h names = record {
  partition = λ c p x found. elim (Bool-cases (pair_eq (b, q) (c, p))) [
    | inl same ↦ ground (arith, lookup-insert (b, q) (c, p) pq P, pair_eq_iff (b, q) (c, p))
    | inr other ↦ h.partition c p x (ground (arith, lookup-insert (b, q) (c, p) pq P))
  ];
  bucket = h.bucket;
}

pub IsKeyed-bucket :
    (P : PartitionQuotas) (B : BucketQuotas) (b : String) (bq : prototype_cache.Models.BucketQuota)
    → IsKeyed P B
    → bq.space ≡ b
    → IsKeyed P (insert b bq B)
IsKeyed-bucket P B b bq h name = record {
  partition = h.partition;
  bucket = λ c x found. elim (Bool-cases (str_eq b c)) [
    | inl same ↦ ground (arith, lookup-insert b c bq B, eq_iff b c)
    | inr other ↦ h.bucket c x (ground (arith, lookup-insert b c bq B))
  ];
}

module _ (n : ℕ) (b q : String) {P : PartitionQuotas} {B : BucketQuotas} (h : IsKeyed P B) where
  pub IsKeyed-charge : IsKeyed (charge_partition n (b, q) P) (charge_bucket n b B)
  unfolding charge_partition charge_bucket
  IsKeyed-charge =
      IsKeyed-bucket _ B b _ (IsKeyed-partition P B b q _ h (current_partition-names h b q))
        (current_bucket-name h b q)

  pub IsKeyed-refund : IsKeyed (refund_partition n (b, q) P) (refund_bucket n b B)
  unfolding refund_partition refund_bucket
  IsKeyed-refund =
      IsKeyed-bucket _ B b _ (IsKeyed-partition P B b q _ h (current_partition-names h b q))
        (current_bucket-name h b q)

-- A version with the identity of a filed asset is filed.
pub IsFiled-identity :
    {id : String} {a b : Asset}
    → IsFiled id a
    → SameIdentity a b
    → (is_some b.payload_deleted_at ≡ true → b.state ≡ deleted)
    → IsFiled id b
IsFiled-identity {id} {a} {b} h e fenced = record {
  filed = e.asset_id ∙ h.filed;
  names = record {
    b = h.names.b;
    q = h.names.q;
    bucket = rw e.space h.names.bucket;
    partition = rw e.partition_id h.names.partition;
  };
  fenced = fenced;
}

pub IsAccounted-edit :
    {A : Assets} {P : PartitionQuotas} {B : BucketQuotas} (id : String) (a b : Asset)
    → IsAccounted A P B
    → lookup id A ≡ some a
    → SameCharge a b
    → IsAccounted (insert id b A) P B
unfolding bytes_for one_for bytes_for_bucket counts_for counts_for_bucket
IsAccounted-edit id a b h found e =
    IsAccounted-same h id a b found
      (λ c p. ground (arith, e.identity.space, e.identity.partition_id, e.state, e.size_bytes))
      (λ c p. ground (arith, e.identity.space, e.identity.partition_id, e.state))
      (λ c. ground (arith, e.identity.space, e.state, e.size_bytes))

pub IsAccounted-idle :
    {A : Assets} {P : PartitionQuotas} {B : BucketQuotas} (id : String) (a b : Asset)
    → IsAccounted A P B
    → lookup id A ≡ some a
    → state_eq a.state available ≡ false
    → state_eq b.state available ≡ false
    → IsAccounted (insert id b A) P B
IsAccounted-idle id a b h found x y =
    IsAccounted-same h id a b found (λ c p. bytes_for_idle b y c p ∙ sym (bytes_for_idle a x c p))
      (λ c p. one_for_idle b y c p ∙ sym (one_for_idle a x c p))
      (λ c. bytes_for_bucket_idle b y c ∙ sym (bytes_for_bucket_idle a x c))

-- An asset that is new and does not count.
pub IsAccounted-new :
    {A : Assets} {P : PartitionQuotas} {B : BucketQuotas} (id : String) (b : Asset)
    → IsAccounted A P B
    → lookup id A ≡ none
    → state_eq b.state available ≡ false
    → IsAccounted (insert id b A) P B
IsAccounted-new {A} id b h absent y = record {
  bytes = λ c p.
      ground (arith, h.bytes c p, total-insert (bytes_for c p) id b A, bytes_for_idle b y c p);
  count =
      λ c p. ground (arith, h.count c p, total-insert (one_for c p) id b A, one_for_idle b y c p);
  bucket = λ c.
      ground
        (arith, h.bucket c, total-insert (bytes_for_bucket c) id b A, bytes_for_bucket_idle b y c);
}

pub idle_of_ne : (x : AssetState) → x ≢ available → state_eq x available ≡ false
idle_of_ne available h = absurd (h refl)
idle_of_ne _ h = refl

pub idle_of_charge : (x : AssetState) → can_charge x ≡ true → state_eq x available ≡ false
idle_of_charge x h = ground arith

pub idle_of_gone : (x : AssetState) → is_gone x ≡ true → state_eq x available ≡ false
idle_of_gone x h = ground arith

pub idle_of_lapse : (x y : AssetState) → can_lapse x y ≡ true → state_eq y available ≡ false
idle_of_lapse x y h = ground arith

module _ {A : Assets} {P : PartitionQuotas} {B : BucketQuotas} (h : IsAccounted A P B) where
  pub IsAccounted-limit_partition :
      (b q : String) (pq : prototype_cache.Models.PartitionQuota)
      → pq.used_bytes ≡ (current_partition P (b, q)).used_bytes
      → pq.used_asset_count ≡ (current_partition P (b, q)).used_asset_count
      → IsAccounted A (insert (b, q) pq P) B
  IsAccounted-limit_partition b q pq x y = record {
    bytes = λ c p.
        ground (arith, h.bytes c p, lookup-insert (b, q) (c, p) pq P, pair_eq_iff (b, q) (c, p));
    count = λ c p.
        ground (arith, h.count c p, lookup-insert (b, q) (c, p) pq P, pair_eq_iff (b, q) (c, p));
    bucket = h.bucket;
  }

  pub IsAccounted-limit_bucket :
      (b : String) (bq : prototype_cache.Models.BucketQuota)
      → bq.used_bytes ≡ (current_bucket B b).used_bytes
      → IsAccounted A P (insert b bq B)
  IsAccounted-limit_bucket b bq x = record {
    bytes = h.bytes;
    count = h.count;
    bucket = λ c. ground (arith, h.bucket c, lookup-insert b c bq B, eq_iff b c);
  }

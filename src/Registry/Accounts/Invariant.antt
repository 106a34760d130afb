-- ===== src/Registry/Accounts/Invariant.antt =====
-- Every change of the registry keeps its invariant.
use prototype_cache.Prelude.{String, ◌≡◌, ◌≢◌, true, ◌⊎◌, arith, is_some, inl, inr, sym, ap, ◌∙◌}
use prototype_cache.Prelude.Dict.{text_key, pair_key}
use prototype_cache.Models.{Asset, AssetState, available, deleted, state_eq}
use prototype_cache.Registry.State.{Registry}
use prototype_cache.Registry.Accounts.Effects.{PartitionQuotas, BucketQuotas, IsKeyed}
use prototype_cache.Registry.Accounts.Totals.{Assets, IsAccounted}
use prototype_cache.Registry.Accounts.Changes.{
  can_charge, can_lapse, Step, quiet, reserve, edit, charge, refund, lapse, limit_partition,
  limit_bucket, Steps, here, next,
}
use prototype_cache.Registry.Accounts.Preserved.{IsAccounted-charge, IsAccounted-refund}
use prototype_cache.Registry.Accounts.WellFormed.{
  IsFiled, AllFiled, IsWellFormed, AllFiled-insert, IsFiled-identity, IsKeyed-charge,
  IsKeyed-refund, IsKeyed-partition, IsKeyed-bucket, IsAccounted-edit, IsAccounted-idle,
  IsAccounted-new, IsAccounted-limit_partition, IsAccounted-limit_bucket, idle_of_ne,
  idle_of_charge, idle_of_gone, idle_of_lapse,
}

-- The invariant of a state whose parts are known.
module _ {A : Assets} {P : PartitionQuotas} {B : BucketQuotas} where
  of_parts :
      {t : Registry}
      → t.assets ≡ A
      → (t.partition_quotas ≡ P) × (t.bucket_quotas ≡ B)
      → IsKeyed P B
      → IsAccounted A P B
      → AllFiled A
      → IsWellFormed t
  of_parts eA (eP, eB) k c f = record {
    keyed = rw (eP, eB) k;
    accounted = rw (eA, eP, eB) c;
    filed = rw eA f;
  }

not_purged :
    {id : String} {a : Asset} (b : Asset)
    → IsFiled id a
    → a.state ≢ deleted
    → b.payload_deleted_at ≡ a.payload_deleted_at
    → is_some b.payload_deleted_at ≡ true
    → b.state ≡ deleted
not_purged b h live same purged = absurd (live (h.fenced (ap is_some (sym same) ∙ purged)))

ne_deleted_of_charge : (x : AssetState) → can_charge x ≡ true → x ≢ deleted
ne_deleted_of_charge deleted h e = cc
ne_deleted_of_charge _ h e = cc

-- Where an asset was deleted it stays so, and a purge comes with the deletion.
lapse_fenced :
    {id : String} {a : Asset} (b : Asset)
    → IsFiled id a
    → can_lapse a.state b.state ≡ true
    → (b.payload_deleted_at ≡ a.payload_deleted_at) ⊎ (b.state ≡ deleted)
    → is_some b.payload_deleted_at ≡ true
    → b.state ≡ deleted
lapse_fenced b h allowed (inr gone) purged = gone
lapse_fenced {a = a} b h allowed (inl same) purged =
    stays_deleted a.state b.state allowed (h.fenced (ap is_some (sym same) ∙ purged))
  where
    stays_deleted : (x y : AssetState) → can_lapse x y ≡ true → x ≡ deleted → y ≡ deleted
    stays_deleted x y allowed e = ground arith

-- One change keeps the counters equal to the sums over the available assets.
pub Step-IsWellFormed : {s t : Registry} → Step s t → IsWellFormed s → IsWellFormed t
Step-IsWellFormed (quiet eA q) w = of_parts eA q w.keyed w.accounted w.filed
Step-IsWellFormed {s} (reserve id b absent filed is_pending unpurged names eA q) w =
    of_parts eA q w.keyed
      (IsAccounted-new id b w.accounted absent (ap (λ x. state_eq x available) is_pending))
      (AllFiled-insert s.assets id b w.filed
        (record { filed = filed; names = names; fenced = λ h. cc }))
Step-IsWellFormed {s} (edit id a b found same eA q) w =
    of_parts eA q w.keyed (IsAccounted-edit id a b w.accounted found same) (
      AllFiled-insert s.assets id b w.filed (
        IsFiled-identity (w.filed id a found) same.identity (λ h.
          same.state ∙ (w.filed id a found).fenced (ap is_some (sym same.payload_deleted_at) ∙ h))))
Step-IsWellFormed {s} (charge id a b write can live unpurged names eP eB) w =
    of_parts write.assets (eP, eB) (IsKeyed-charge _ names.b names.q w.keyed)
      (IsAccounted-charge w.accounted id a b write.found names.b names.q
        (record {
          live = ap (λ x. state_eq x available) live;
          bucket = rw (write.identity.space) names.bucket;
          partition = rw (write.identity.partition_id) names.partition;
        })
        (idle_of_charge a.state can))
      (AllFiled-insert s.assets id b w.filed (
        IsFiled-identity (w.filed id a write.found) write.identity
          (not_purged b (w.filed id a write.found) (ne_deleted_of_charge a.state can) unpurged)))
Step-IsWellFormed {s} (refund id a b write live gone unpurged names eP eB) w =
    of_parts write.assets (eP, eB) (IsKeyed-refund _ names.b names.q w.keyed)
      (IsAccounted-refund w.accounted id a b write.found names.b names.q
        (record {
          live = ap (λ x. state_eq x available) live;
          bucket = names.bucket;
          partition = names.partition;
        })
        (idle_of_gone b.state gone))
      (AllFiled-insert s.assets id b w.filed (
        IsFiled-identity (w.filed id a write.found) write.identity
          (not_purged b (w.filed id a write.found) (λ e. cc) unpurged)))
Step-IsWellFormed {s} (lapse id a b write not_live allowed fence q) w =
    of_parts write.assets q w.keyed
      (IsAccounted-idle id a b w.accounted write.found (idle_of_ne a.state not_live)
        (idle_of_lapse a.state b.state allowed))
      (AllFiled-insert s.assets id b w.filed (
        IsFiled-identity (w.filed id a write.found) write.identity
          (lapse_fenced b (w.filed id a write.found) allowed fence)))
Step-IsWellFormed {s} (limit_partition b q pq names bytes count eA eP eB) w =
    of_parts eA (eP, eB) (IsKeyed-partition s.partition_quotas s.bucket_quotas b q pq w.keyed names)
      (IsAccounted-limit_partition w.accounted b q pq bytes count) w.filed
Step-IsWellFormed {s} (limit_bucket b bq name bytes eA eP eB) w =
    of_parts eA (eP, eB) (IsKeyed-bucket s.partition_quotas s.bucket_quotas b bq w.keyed name)
      (IsAccounted-limit_bucket w.accounted b bq bytes) w.filed

pub Steps-IsWellFormed : {s t : Registry} → Steps s t → IsWellFormed s → IsWellFormed t
Steps-IsWellFormed here w = w
Steps-IsWellFormed (next h st) w = Step-IsWellFormed st (Steps-IsWellFormed h w)

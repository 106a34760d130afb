-- ===== src/Registry/Steps/Edit.antt =====
-- The operations that change neither the state of an asset nor a count: `update_annotations`,
-- `set_eviction_policy`, `record_read`, `set_partition_quota` and `set_bucket_quota`.
use prototype_cache.Prelude.{
  ℕ, ◌+◌, String, ◌≡◌, refl, Bool, Option, some, arith, inl, inr, Bool-cases, Option-cases, subst,
  sym, get_or, if◌then◌else◌, ◌⊎◌,
}
use prototype_cache.Prelude.Int.{ℤ}
use prototype_cache.Prelude.Dict.{Dict, lookup, text_key}
use prototype_cache.Errors.{Result-cases, Error, ok, err}
use prototype_cache.Models.{
  Asset, available, deleted, state_eq, EvictionPolicy, Ratio, PartitionQuota, BucketQuota,
}
use prototype_cache.Env.{Env}
use prototype_cache.Paths.{normalize_space, normalize_partition_id}
use prototype_cache.Registry.State.{Registry}
use prototype_cache.Registry.Quota.{partition_quota, bucket_quota}
use prototype_cache.Registry.Counters.{limit_of, set_partition_quota, set_bucket_quota}
use prototype_cache.Registry.Accounts.{
  IsWellFormed, Step, quiet, edit, limit_partition, limit_bucket, current_partition, current_bucket,
  current_partition-names, current_bucket-name,
}
use prototype_cache.Registry.Lifecycle.{update_annotations, set_eviction_policy, record_read, merge}
use prototype_cache.Registry.Steps.Common.{unchanged}

module _ (env : Env) (s : Registry) (id : String) where
  pub update_annotations-Step :
      (patch : Dict String String) (caller : String) (overwrite : Bool)
      → Step s (update_annotations env id patch caller overwrite s).1
  unfolding update_annotations
  update_annotations-Step patch caller overwrite = elim (Option-cases (lookup id s.assets)) [
    | inl absent ↦ quiet (ground arith) (ground arith, ground arith)
    | inr (a, found) ↦ elim (Bool-cases (state_eq a.state deleted)) [
      | inl gone ↦ quiet (ground arith) (ground arith, ground arith)
      | inr there ↦
          let b : Asset = record a {
            annotations = if overwrite then patch else merge a.annotations patch;
            updated_at = env.clock s.readings;
          } in
          edit id a b found (unchanged a b refl refl refl refl refl refl refl) (ground arith)
            (ground arith, ground arith)
    ]
  ]

  pub set_eviction_policy-Step :
      (eviction_policy : EvictionPolicy) (caller : String)
      → Step s (set_eviction_policy env id eviction_policy caller s).1
  unfolding set_eviction_policy
  set_eviction_policy-Step eviction_policy caller = elim (Option-cases (lookup id s.assets)) [
    | inl absent ↦ quiet (ground arith) (ground arith, ground arith)
    | inr (a, found) ↦ elim (Bool-cases (state_eq a.state deleted)) [
      | inl gone ↦ quiet (ground arith) (ground arith, ground arith)
      | inr there ↦
          let b : Asset = record a {
            eviction_policy = eviction_policy;
            updated_at = env.clock s.readings;
          } in
          edit id a b found (unchanged a b refl refl refl refl refl refl refl) (ground arith)
            (ground arith, ground arith)
    ]
  ]

  pub record_read-Step : Step s (record_read env id s).1
  unfolding record_read
  record_read-Step = elim (Option-cases (lookup id s.assets)) [
    | inl absent ↦ quiet (ground arith) (ground arith, ground arith)
    | inr (a, found) ↦ elim (Bool-cases (state_eq a.state available)) [
      | inr idle ↦ quiet (ground arith) (ground arith, ground arith)
      | inl live ↦
          let b : Asset = record a {
            last_read_at = some (env.clock s.readings);
            read_count = a.read_count + 1;
          } in
          edit id a b found (unchanged a b refl refl refl refl refl refl refl) (ground arith)
            (ground arith, ground arith)
    ]
  ]

module _ (env : Env) (s : Registry) (w : IsWellFormed s) (space : String) where
  module _ (partition_id : String) (bytes count : Option ℤ) (sweep : Option Bool)
      (caller : String) where
    abbrev limited : Registry
    limited = (set_partition_quota env space partition_id bytes count sweep caller s).1

    set_partition_quota_limits :
        (x y : Option ℕ) (b q : String)
        → limit_of bytes ≡ ok x
        → limit_of count ≡ ok y
        → normalize_space space ≡ ok b
        → normalize_partition_id partition_id ≡ ok q
        → Step s limited
    unfolding set_partition_quota partition_quota
    set_partition_quota_limits x y b q hx hy hb hq =
        let current = current_partition s.partition_quotas (b, q) in
        let pq : PartitionQuota = record current {
          quota_bytes = x;
          quota_asset_count = y;
          eviction_sweep_enabled = get_or sweep current.eviction_sweep_enabled;
        } in
        let names = current_partition-names w.keyed b q in
        limit_partition b q pq names refl refl (ground arith) (ground (arith, names)) (ground arith)

    -- Without limits and names that are accepted, nothing changes.
    set_partition_quota_refuses :
        (e : Error)
        → (limit_of bytes ≡ err e)
          ⊎ (limit_of count ≡ err e)
          ⊎ (normalize_space space ≡ err e)
          ⊎ (normalize_partition_id partition_id ≡ err e)
        → limited ≡ s
    unfolding set_partition_quota partition_quota
    set_partition_quota_refuses e h = ground arith

    pub set_partition_quota-Step : Step s limited
    set_partition_quota-Step = elim (Result-cases (limit_of bytes)) [
      | inr (e, bad) ↦ refused e (inl bad)
      | inl (x, hx) ↦ elim (Result-cases (limit_of count)) [
        | inr (e, bad) ↦ refused e (inr (inl bad))
        | inl (y, hy) ↦ elim (Result-cases (normalize_space space)) [
          | inr (e, bad) ↦ refused e (inr (inr (inl bad)))
          | inl (b, hb) ↦ elim (Result-cases (normalize_partition_id partition_id)) [
            | inr (e, bad) ↦ refused e (inr (inr (inr bad)))
            | inl (q, hq) ↦ set_partition_quota_limits x y b q hx hy hb hq
          ]
        ]
      ]
    ]
      where
        refused :
            (e : Error)
            → (limit_of bytes ≡ err e)
              ⊎ (limit_of count ≡ err e)
              ⊎ (normalize_space space ≡ err e)
              ⊎ (normalize_partition_id partition_id ≡ err e)
            → Step s limited
        refused e h =
            subst (Step s) (sym (set_partition_quota_refuses e h)) (quiet refl (refl, refl))

  module _ (bytes : Option ℤ) (warn hard : Ratio) where
    set_bucket_quota_limits :
        (x : Option ℕ) (b : String)
        → limit_of bytes ≡ ok x
        → normalize_space space ≡ ok b
        → Step s (set_bucket_quota space bytes warn hard s).1
    unfolding set_bucket_quota bucket_quota
    set_bucket_quota_limits x b hx hb =
        let current = current_bucket s.bucket_quotas b in
        let bq : BucketQuota = record current {
          quota_bytes = x;
          warn_threshold = warn;
          hard_ceiling = hard;
        } in
        let name = current_bucket-name w.keyed b "" in
        limit_bucket b bq name refl (ground arith) (ground arith) (ground (arith, name))

    pub set_bucket_quota-Step : Step s (set_bucket_quota space bytes warn hard s).1
    set_bucket_quota-Step = elim (Result-cases (limit_of bytes)) [
      | inr (e, bad) ↦ unfold set_bucket_quota in quiet (ground arith) (ground arith, ground arith)
      | inl (x, hx) ↦ elim (Result-cases (normalize_space space)) [
        | inr (e, bad) ↦
            unfold set_bucket_quota bucket_quota in
            quiet (ground arith) (ground arith, ground arith)
        | inl (b, hb) ↦ set_bucket_quota_limits x b hx hb
      ]
    ]

-- ===== src/Registry/Steps/Cleanup.antt =====
-- `lifecycle_update`: the maintenance worker's transitions, which release the quota once and fence
-- the deletion of the bytes.
use prototype_cache.Prelude.{
  ℕ, String, ◌≡◌, Bool, true, false, some, arith, inl, inr, Bool-cases, Option-cases, get_or, sym,
  ◌∙◌, if◌then◌else◌,
}
use prototype_cache.Prelude.Dict.{lookup, text_key}
use prototype_cache.Errors.{Result-cases, ok}
use prototype_cache.Models.{
  Asset, AssetState, available, expired, deleted, state_eq, asset_eq, same_account,
  same_account_lem,
}
use prototype_cache.Env.{Env}
use prototype_cache.Retention.{validate_cleanup_transition}
use prototype_cache.Registry.State.{Registry}
use prototype_cache.Registry.Counters.{release_quota}
use prototype_cache.Registry.Accounts.{
  return_quota_lem, IsPlaced, IsWellFormed, SameIdentity, Step, quiet, refund, lapse,
}
use prototype_cache.Registry.Lifecycle.{lifecycle_update}

-- Equal assets have equal accounts.
asset_eq-account : (a b : Asset) → asset_eq a b ≡ true → same_account a b ≡ true
unfolding asset_eq
asset_eq-account a b h = ground arith

module _ (env : Env) (s : Registry) (w : IsWellFormed s) (asset : Asset) (now : ℕ)
    (reason : String) where
  module _ (new_state : AssetState) (payload_deleted : Bool) (a : Asset)
      (found : lookup asset.asset_id s.assets ≡ some a) (same : asset_eq a asset ≡ true)
      (valid : validate_cleanup_transition asset new_state payload_deleted ≡ ok tt) where
    abbrev cleaned_version : Asset
    cleaned_version = record asset {
      state = new_state;
      updated_at = now;
      expired_at = if state_eq new_state expired then some now else asset.expired_at;
      payload_deleted_at = if payload_deleted then some now else asset.payload_deleted_at;
    }

    cleaned_identity : SameIdentity a cleaned_version
    cleaned_identity =
        let e = same_account_lem a asset (asset_eq-account a asset same) in
        record {
          asset_id = sym e.asset_id;
          space = sym e.space;
          partition_id = sym e.partition_id;
          storage_key = sym e.storage_key;
        }

    -- From `available` only to `expired`, with the bytes kept.
    cleanup_live : asset.state ≡ available → (new_state ≡ expired) × (payload_deleted ≡ false)
    unfolding validate_cleanup_transition
    cleanup_live live = ground arith

    -- From another state only to `deleted`.
    cleanup_idle : state_eq asset.state available ≡ false → new_state ≡ deleted
    unfolding validate_cleanup_transition
    cleanup_idle idle = ground arith

    lifecycle_update_live :
        asset.state ≡ available
        → Step s (lifecycle_update env asset new_state now reason payload_deleted s).1
    unfolding lifecycle_update release_quota
    lifecycle_update_live live =
        let e = same_account_lem a asset (asset_eq-account a asset same) in
        let names = (w.filed asset.asset_id a found).names in
        let c = cleanup_live live in
        let placed : IsPlaced s asset.space asset.partition_id names.b names.q = record {
          keyed = w.keyed;
          bucket = rw (← e.space) names.bucket;
          partition = rw (← e.partition_id) names.partition;
        } in
        let back =
          return_quota_lem asset.space asset.partition_id names.b names.q s placed
            (get_or asset.size_bytes 0) in
        refund asset.asset_id a cleaned_version
          (record { found = found; identity = cleaned_identity; assets = ground (arith, back) })
          (e.state ∙ live) (ground (arith, c.0)) (ground (arith, c.1, e.payload_deleted_at)) names
          (ground (arith, back, e.size_bytes)) (ground (arith, back, e.size_bytes))

    lifecycle_update_idle :
        state_eq asset.state available ≡ false
        → Step s (lifecycle_update env asset new_state now reason payload_deleted s).1
    unfolding lifecycle_update release_quota
    lifecycle_update_idle idle =
        let e = same_account_lem a asset (asset_eq-account a asset same) in
        let c = cleanup_idle idle in
        lapse asset.asset_id a cleaned_version
          (record { found = found; identity = cleaned_identity; assets = ground arith })
          (λ live. ground (arith, e.state)) (ground (arith, c)) (inr c) (ground arith, ground arith)

    lifecycle_update_found :
        Step s (lifecycle_update env asset new_state now reason payload_deleted s).1
    lifecycle_update_found = elim (Bool-cases (state_eq asset.state available)) [
      | inl live ↦ lifecycle_update_live (ground arith)
      | inr idle ↦ lifecycle_update_idle idle
    ]

  module _ (new_state : AssetState) (payload_deleted : Bool) where
    pub lifecycle_update-Step :
        Step s (lifecycle_update env asset new_state now reason payload_deleted s).1
    lifecycle_update-Step = elim (Option-cases (lookup asset.asset_id s.assets)) [
      | inl absent ↦ unfold lifecycle_update in quiet (ground arith) (ground arith, ground arith)
      | inr (a, found) ↦ elim (Bool-cases (asset_eq a asset)) [
        | inr changed ↦ unfold lifecycle_update in quiet (ground arith) (ground arith, ground arith)
        | inl same ↦
            elim (Result-cases (validate_cleanup_transition asset new_state payload_deleted)) [
              | inr (e, refused) ↦
                  unfold lifecycle_update in quiet (ground arith) (ground arith, ground arith)
              | inl (u, valid) ↦ lifecycle_update_found new_state payload_deleted a found same valid
            ]
      ]
    ]

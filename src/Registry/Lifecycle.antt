-- ===== src/Registry/Lifecycle.antt =====
-- src/asset_store_core/registry.py: the operations on one asset (`commit_asset`,
-- `update_annotations`, `expire_asset`, `delete_asset`, `set_eviction_policy`, `record_read`,
-- `lifecycle_update`, `set_asset_ttl`, `_mark_for_gc_if_orphaned`).
use prototype_cache.Prelude.{
  ℕ, ◌+◌, String, Bool, true, false, not, ◌||◌, Option, none, some, List, [], ◌∷◌, nat_eq, is_some,
  get_or, str_eq, if◌then◌else◌,
}
use prototype_cache.Prelude.Int.{ℤ, to_ℕ?}
use prototype_cache.Prelude.Text.{strip, is_space}
use prototype_cache.Prelude.Dict.{Dict, insert, text_key}
use prototype_cache.Errors.{validation, checksum_mismatch, invalid_state_transition}
use prototype_cache.Exec.{Exec, pure, lift, raise_when, or_fail, ◌>>=◌, ◌>>◌}
use prototype_cache.Models.{
  Asset, AssetState, pending, available, expired, deleted, state_eq, EvictionPolicy, asset_eq,
  Detail, text, time, state, policy,
}
use prototype_cache.Env.{Env}
use prototype_cache.Retention.{expiry_for, validate_cleanup_transition}
use prototype_cache.Registry.State.{Registry, get_asset, store_asset, utcnow, audit}
use prototype_cache.Registry.Quota.{enforce_quota}
use prototype_cache.Registry.Counters.{acquire_quota, release_quota}

-- `mime or asset.mime`: an empty text counts as absent
abbrev pub or_mime : Option String → Option String → Option String
or_mime none m = m
or_mime (some t) m = if str_eq t "" then m else some t

-- `expected is not None and expected != actual`
abbrev pub differs : Option String → String → Bool
differs none actual = false
differs (some expected) actual = not (str_eq expected actual)

-- `reserved is not None and reserved != size`
abbrev pub other_size : Option ℕ → ℕ → Bool
other_size none n = false
other_size (some r) n = not (nat_eq r n)

-- `dict.update`
abbrev pub merge : Dict String String → Dict String String → Dict String String
merge d [] = d
merge d ((k, v) ∷ patch) = merge (insert k v d) patch

abbrev texts : Dict String String → Dict String Detail
texts [] = []
texts ((k, v) ∷ d) = (k, text v) ∷ texts d

abbrev state_detail : AssetState → Dict String Detail
state_detail st = ("state", state st) ∷ []

abbrev pub is_empty {ℓ} : {A : Type ℓ} → List A → Bool
is_empty [] = true
is_empty (x ∷ xs) = false

abbrev cleanup_action : Bool → AssetState → String
cleanup_action true st = "asset.payload_delete"
cleanup_action false expired = "asset.expire"
cleanup_action false _ = "asset.delete"

module _ (env : Env) where
  unfoldable pub commit_asset :
      String → ℤ → String → String → Option String → Option String → Exec Registry Asset
  commit_asset asset_id size_bytes checksum caller mime expected_checksum = do
    size ← or_fail (to_ℕ? size_bytes) validation
    let server_checksum = strip is_space checksum
    raise_when (str_eq server_checksum "") validation
    raise_when (differs expected_checksum server_checksum) checksum_mismatch
    asset ← get_asset asset_id
    raise_when (not (state_eq asset.state pending)) invalid_state_transition
    raise_when (other_size asset.reserved_bytes size) validation
    λ s. (enforce_quota env s asset.space asset.partition_id size (some asset_id), s)
    now ← utcnow env
    let updated : Asset = record asset {
      state = available;
      size_bytes = some size;
      reserved_bytes = none;
      checksum = some server_checksum;
      mime = or_mime mime asset.mime;
      updated_at = now;
    }
    store_asset asset_id updated
    acquire_quota asset.space asset.partition_id size
    audit env "asset.commit" asset_id caller "success" (state_detail asset.state)
        (state_detail available)
    pure updated

  unfoldable pub update_annotations :
      String → Dict String String → String → Bool → Exec Registry Asset
  update_annotations asset_id patch caller overwrite = do
    asset ← get_asset asset_id
    raise_when (state_eq asset.state deleted) invalid_state_transition
    let merged = if overwrite then patch else merge asset.annotations patch
    now ← utcnow env
    let updated : Asset = record asset { annotations = merged; updated_at = now }
    store_asset asset_id updated
    audit env "asset.annotations_update" asset_id caller "success" (texts asset.annotations)
        (texts merged)
    pure updated

  unfoldable pub expire_asset : String → String → Exec Registry Asset
  expire_asset asset_id caller = do
    asset ← get_asset asset_id
    raise_when (not (state_eq asset.state available)) invalid_state_transition
    updated_at ← utcnow env
    expired_at ← utcnow env
    let updated : Asset = record asset {
      state = expired;
      updated_at = updated_at;
      expired_at = some expired_at;
    }
    store_asset asset_id updated
    release_quota asset
    audit env "asset.expire" asset_id caller "success" (state_detail asset.state)
        (state_detail expired)
    pure updated

  unfoldable pub delete_asset : String → String → Exec Registry Asset
  delete_asset asset_id caller = do
    asset ← get_asset asset_id
    raise_when (not (state_eq asset.state available || state_eq asset.state expired))
        invalid_state_transition
    now ← utcnow env
    let updated : Asset = record asset { state = deleted; updated_at = now }
    store_asset asset_id updated
    release_quota asset
    audit env "asset.delete" asset_id caller "success" (state_detail asset.state)
        (state_detail deleted)
    pure updated

  unfoldable pub set_eviction_policy : String → EvictionPolicy → String → Exec Registry Asset
  set_eviction_policy asset_id eviction_policy caller = do
    asset ← get_asset asset_id
    raise_when (state_eq asset.state deleted) invalid_state_transition
    now ← utcnow env
    let updated : Asset = record asset { eviction_policy = eviction_policy; updated_at = now }
    store_asset asset_id updated
    audit env "asset.eviction_policy_set" asset_id caller "success"
        (("eviction_policy", policy asset.eviction_policy) ∷ [])
        (("eviction_policy", policy eviction_policy) ∷ [])
    pure updated

  unfoldable pub record_read : String → Exec Registry (Unit {0})
  record_read asset_id = do
    asset ← get_asset asset_id
    elim (state_eq asset.state available) [
      | true ↦ do
        now ← utcnow env
        store_asset asset_id
            (record asset { last_read_at = some now; read_count = asset.read_count + 1 })
      | false ↦ pure tt
    ]

  unfoldable pub lifecycle_update : Asset → AssetState → ℕ → String → Bool → Exec Registry Asset
  lifecycle_update asset new_state now reason payload_deleted = do
    current ← get_asset asset.asset_id
    raise_when (not (asset_eq current asset)) invalid_state_transition
    lift (validate_cleanup_transition asset new_state payload_deleted)
    let updated : Asset = record asset {
      state = new_state;
      updated_at = now;
      expired_at = if state_eq new_state expired then some now else asset.expired_at;
      payload_deleted_at = if payload_deleted then some now else asset.payload_deleted_at;
    }
    release_quota asset
    store_asset asset.asset_id updated
    audit env (cleanup_action payload_deleted new_state) asset.asset_id "lifecycle-worker" "success"
        (state_detail asset.state) (("state", state new_state) ∷ ("reason", text reason) ∷ [])
    pure updated

  -- the quota of an expired asset that is restored
  unfoldable pub regain : Asset → Exec Registry (Unit {0})
  regain asset = do
    λ s. (
      enforce_quota env s asset.space asset.partition_id (get_or asset.size_bytes 0)
          (some asset.asset_id),
      s,
    )
    acquire_quota asset.space asset.partition_id (get_or asset.size_bytes 0)

  unfoldable pub regain_if_expired : Asset → Exec Registry (Unit {0})
  unfolding regain
  regain_if_expired asset = elim (state_eq asset.state expired) [
    | true ↦ regain asset
    | false ↦ pure tt
  ]

  unfoldable pub set_asset_ttl : String → ℤ → String → Exec Registry Asset
  set_asset_ttl asset_id ttl_seconds caller = do
    asset ← get_asset asset_id
    raise_when (not (state_eq asset.state available || state_eq asset.state expired))
        invalid_state_transition
    raise_when (not (is_some asset.size_bytes) || not (is_some asset.checksum))
        invalid_state_transition
    now ← utcnow env
    deadline ← lift (expiry_for env asset.space (some ttl_seconds) now)
    regain_if_expired asset
    let updated : Asset = record asset {
      state = available;
      expires_at = deadline;
      expired_at = none;
      updated_at = now;
    }
    store_asset asset_id updated
    audit env "admin.ttl_set" asset_id caller "success"
        (("expires_at", time asset.expires_at) ∷ ("state", state asset.state) ∷ [])
        (("expires_at", time deadline) ∷ ("state", state available) ∷ [])
    pure updated

  -- the marking of `_mark_for_gc_if_orphaned`, once the asset is known to need it
  unfoldable pub gc_mark : Asset → String → String → Exec Registry (Unit {0})
  gc_mark asset asset_id caller = do
    updated_at ← utcnow env
    expired_at ← utcnow env
    store_asset asset_id
        (record asset { state = expired; updated_at = updated_at; expired_at = some expired_at })
    release_quota asset
    audit env "asset.gc_mark" asset_id caller "success"
        (("state", state asset.state) ∷ ("reason", text "zero_aliases") ∷ []) (state_detail expired)

  unfoldable pub mark_for_gc_if_orphaned : String → String → Exec Registry (Unit {0})
  mark_for_gc_if_orphaned asset_id caller = do
    asset ← get_asset asset_id
    elim (not (is_empty asset.aliases)
        || state_eq asset.state expired
        || state_eq asset.state deleted) [ true ↦ pure tt | false ↦ gc_mark asset asset_id caller ]

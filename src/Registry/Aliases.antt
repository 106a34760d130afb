-- ===== src/Registry/Aliases.antt =====
-- src/asset_store_core/registry.py: the operations on aliases (`reserve_asset`, `attach_alias`,
-- `resolve_alias`, `detach_alias`, `detach_mutable_alias`, `rebind_alias`).
use prototype_cache.Prelude.{
  ℕ, ◌+◌, String, Bool, true, false, not, Option, none, some, List, [], ◌∷◌, ltb, leb, is_some,
  get_or, str_eq,
}
use prototype_cache.Prelude.Int.{ℤ, to_ℕ?}
use prototype_cache.Prelude.Dict.{Dict, lookup, insert, erase, text_key}
use prototype_cache.Errors.{
  Result, validation, alias_conflict, alias_not_found, alias_immutable, invalid_state_transition,
  overflow_error,
}
use prototype_cache.Exec.{Exec, pure, lift, raise_when, or_fail, modify, ◌>>=◌, ◌>>◌}
use prototype_cache.Models.{
  Asset, pending, available, deleted, state_eq, EvictionPolicy, AliasBinding, Detail, text, flag,
  number, is_resolvable,
}
use prototype_cache.Env.{Env}
use prototype_cache.Paths.{
  normalize_space, normalize_partition_id, normalize_relative_alias, qualified_alias,
}
use prototype_cache.Storage.{build_storage_key}
use prototype_cache.Retention.{max_time, expiry_for, require_live}
use prototype_cache.Registry.State.{Registry, get_asset, store_asset, utcnow, new_asset_id, audit}
use prototype_cache.Registry.Quota.{enforce_quota}
use prototype_cache.Registry.Names.{
  AliasSpecs, normalize_alias_specs, alias_under_partition, partition_from_scoped_alias,
  binding_key, add_member, without,
}
use prototype_cache.Registry.Lifecycle.{mark_for_gc_if_orphaned}

-- `self._aliases[key] = binding`
abbrev pub store_binding : String → AliasBinding → Exec Registry (Unit {0})
store_binding key binding = modify λ s. record s { aliases = insert key binding s.aliases }

-- `_get_binding`: the binding under its key
unfoldable pub get_binding : String → String → Exec Registry (String × AliasBinding)
get_binding space alias = do
  norm_space ← lift (normalize_space space)
  name ← lift (normalize_relative_alias alias)
  key ← lift (qualified_alias norm_space name)
  binding ← λ s. or_fail (lookup key s.aliases) alias_not_found s
  pure (key, binding)

abbrev asset_detail : String → Dict String Detail
asset_detail asset_id = ("asset_id", text asset_id) ∷ []

module _ (env : Env) where
  -- `_alias_name_is_blocked`, for the key of the name: a tombstone whose time has passed goes
  unfoldable pub name_is_blocked : String → Exec Registry Bool
  name_is_blocked key s = elim (is_some (lookup key s.aliases)) [
    | true ↦ pure true s
    | false ↦ elim (lookup key s.tombstones) [
      | none ↦ pure false s
      | some grace_until ↦ elim (leb grace_until (env.clock s.readings)) [
        | true ↦
            pure false (record s { tombstones = erase key s.tombstones; readings = s.readings + 1 })
        | false ↦ pure true (record s { readings = s.readings + 1 })
      ]
    ]
  ]

  -- `_require_alias_name_available`
  unfoldable pub require_name_available : String → String → Exec Registry (Unit {0})
  unfolding name_is_blocked
  require_name_available norm_space alias_name = do
    key ← lift (qualified_alias norm_space alias_name)
    blocked ← name_is_blocked key
    raise_when blocked alias_conflict

  -- the first loop of `reserve_asset`
  unfoldable pub require_names : String → String → Dict String Bool → Exec Registry (Unit {0})
  unfolding require_name_available
  require_names space partition [] = pure tt
  require_names space partition ((alias, mutable) ∷ rest) = do
    scoped ← lift (alias_under_partition partition alias)
    require_name_available space scoped
    require_names space partition rest

  -- `frozenset(qualified_alias(...) for alias_name in alias_specs)`
  unfoldable pub qualified_names :
      String → String → Dict String Bool → List String → Exec Registry (List String)
  qualified_names space partition [] found = pure found
  qualified_names space partition ((alias, mutable) ∷ rest) found = do
    scoped ← lift (alias_under_partition partition alias)
    key ← lift (qualified_alias space scoped)
    qualified_names space partition rest (add_member key found)

  -- the second loop of `reserve_asset`
  unfoldable pub bind_names :
      String → String → String → ℕ → String → Dict String Bool → Exec Registry (Unit {0})
  unfolding binding_key
  bind_names space partition asset_id now owner [] = pure tt
  bind_names space partition asset_id now owner ((alias, mutable) ∷ rest) = do
    scoped ← lift (alias_under_partition partition alias)
    let binding : AliasBinding = record {
      space = space;
      alias = scoped;
      asset_id = some asset_id;
      mutable = mutable;
      previous_asset_id = none;
      created_at = now;
      updated_at = now;
      created_by_service_id = owner;
    }
    key ← lift (binding_key binding)
    store_binding key binding
    audit env "alias.create" key owner "success" []
        (("asset_id", text asset_id) ∷ ("mutable", flag mutable) ∷ [])
    bind_names space partition asset_id now owner rest

  -- the check of an exact-size reservation
  unfoldable pub check_reservation : String → String → Option ℤ → Exec Registry (Option ℕ)
  check_reservation space partition none = pure none
  check_reservation space partition (some reserved_bytes) = do
    bytes ← or_fail (to_ℕ? reserved_bytes) validation
    λ s. (enforce_quota env s space partition bytes none, s)
    pure (some bytes)

  unfoldable pub audit_reservation : String → String → Option ℕ → Exec Registry (Unit {0})
  audit_reservation asset_id owner none = pure tt
  audit_reservation asset_id owner (some bytes) =
      audit env "asset.upload_reserve" asset_id owner "success" []
        (("reserved_bytes", number (some bytes)) ∷ [])

  unfoldable pub reserve_asset :
      String
      → String
      → AliasSpecs
      → String
      → Option String
      → Dict String String
      → EvictionPolicy
      → Option ℤ
      → Option ℤ
      → Exec Registry Asset
  unfolding require_names qualified_names bind_names check_reservation audit_reservation
  reserve_asset space partition_id aliases owner mime annotations eviction_policy ttl_seconds
        reserved_bytes =
      do
        norm_space ← lift (normalize_space space)
        norm_partition ← lift (normalize_partition_id partition_id)
        specs ← lift (normalize_alias_specs aliases)
        require_names norm_space norm_partition specs
        reserved ← check_reservation norm_space norm_partition reserved_bytes
        asset_id ← new_asset_id env
        now ← utcnow env
        qualified ← qualified_names norm_space norm_partition specs []
        storage_key ← lift (build_storage_key norm_partition asset_id)
        expires_at ← lift (expiry_for env norm_space ttl_seconds now)
        let asset : Asset = record {
          asset_id = asset_id;
          space = norm_space;
          partition_id = norm_partition;
          storage_key = storage_key;
          state = pending;
          aliases = qualified;
          mime = mime;
          size_bytes = none;
          reserved_bytes = reserved;
          checksum_algo = "sha256";
          checksum = none;
          annotations = annotations;
          created_at = now;
          updated_at = now;
          expires_at = expires_at;
          expired_at = none;
          last_read_at = none;
          read_count = 0;
          payload_deleted_at = none;
          owner_service_id = owner;
          eviction_policy = eviction_policy;
        }
        store_asset asset_id asset
        bind_names norm_space norm_partition asset_id now owner specs
        audit_reservation asset_id owner reserved
        pure asset

  -- `_add_alias_to_asset`
  unfoldable pub add_alias_to_asset : String → String → Exec Registry (Unit {0})
  add_alias_to_asset asset_id key = do
    asset ← get_asset asset_id
    now ← utcnow env
    store_asset asset_id (record asset { aliases = add_member key asset.aliases; updated_at = now })

  -- `_remove_alias_from_asset`
  unfoldable pub remove_alias_from_asset : String → String → Exec Registry (Unit {0})
  remove_alias_from_asset asset_id key = do
    asset ← get_asset asset_id
    now ← utcnow env
    store_asset asset_id (record asset { aliases = without key asset.aliases; updated_at = now })

  unfoldable pub attach_alias : String → String → Bool → String → Exec Registry AliasBinding
  unfolding require_name_available add_alias_to_asset
  attach_alias asset_id alias mutable caller = do
    asset ← get_asset asset_id
    raise_when (state_eq asset.state deleted) invalid_state_transition
    norm_space ← lift (normalize_space asset.space)
    alias_name ← lift (alias_under_partition asset.partition_id alias)
    require_name_available norm_space alias_name
    key ← lift (qualified_alias norm_space alias_name)
    now ← utcnow env
    let binding : AliasBinding = record {
      space = norm_space;
      alias = alias_name;
      asset_id = some asset_id;
      mutable = mutable;
      previous_asset_id = none;
      created_at = now;
      updated_at = now;
      created_by_service_id = caller;
    }
    store_binding key binding
    add_alias_to_asset asset_id key
    audit env "alias.attach" key caller "success" []
        (("asset_id", text asset_id) ∷ ("mutable", flag mutable) ∷ [])
    pure binding

  unfoldable pub resolve_alias : String → String → Exec Registry Asset
  unfolding get_binding
  resolve_alias space alias = do
    found ← get_binding space alias
    asset_id ← or_fail found.1.asset_id invalid_state_transition
    asset ← get_asset asset_id
    now ← utcnow env
    lift (require_live asset now)
    raise_when (not (is_resolvable asset)) invalid_state_transition
    pure asset

  -- the tombstone of `detach_alias`; the sum raises past `datetime.max`
  unfoldable pub bury_name : String → Exec Registry (Unit {0})
  bury_name key s = elim (ltb 0 s.alias_grace) [
    | true ↦
        let until = env.clock s.readings + s.alias_grace in
        elim (leb until max_time) [
          | true ↦ (
            Result.ok tt,
            record s { tombstones = insert key until s.tombstones; readings = s.readings + 1 },
          )
          | false ↦ (Result.err overflow_error, record s { readings = s.readings + 1 })
        ]
    | false ↦ pure tt s
  ]

  unfoldable pub detach_alias : String → String → String → Exec Registry (Unit {0})
  unfolding get_binding remove_alias_from_asset bury_name
  detach_alias space alias caller = do
    found ← get_binding space alias
    raise_when found.1.mutable alias_immutable
    key ← lift (binding_key found.1)
    asset_id ← or_fail found.1.asset_id invalid_state_transition
    modify λ s. record s { aliases = erase key s.aliases }
    remove_alias_from_asset asset_id key
    bury_name key
    audit env "alias.detach" key caller "success" (asset_detail asset_id) []
    mark_for_gc_if_orphaned env asset_id caller

  unfoldable pub detach_mutable_alias : String → String → String → Exec Registry AliasBinding
  unfolding get_binding remove_alias_from_asset
  detach_mutable_alias space alias caller = do
    found ← get_binding space alias
    raise_when (not found.1.mutable) alias_immutable
    old_asset_id ← or_fail found.1.asset_id invalid_state_transition
    key ← lift (binding_key found.1)
    remove_alias_from_asset old_asset_id key
    now ← utcnow env
    let updated : AliasBinding = record (found.1) {
      asset_id = none;
      previous_asset_id = some old_asset_id;
      updated_at = now;
    }
    store_binding key updated
    audit env "alias.detach_mutable" key caller "success" (asset_detail old_asset_id)
        (asset_detail "")
    mark_for_gc_if_orphaned env old_asset_id caller
    pure updated

  unfoldable pub rebind_alias : String → String → String → String → Exec Registry AliasBinding
  unfolding get_binding add_alias_to_asset
  rebind_alias space alias new_asset_id caller = do
    found ← get_binding space alias
    raise_when (not found.1.mutable) alias_immutable
    raise_when (is_some found.1.asset_id) invalid_state_transition
    new_asset ← get_asset new_asset_id
    raise_when (not (str_eq new_asset.space found.1.space)) alias_conflict
    partition ← lift (partition_from_scoped_alias found.1.alias)
    raise_when (not (str_eq new_asset.partition_id partition)) alias_conflict
    raise_when (not (state_eq new_asset.state available)) invalid_state_transition
    key ← lift (binding_key found.1)
    now ← utcnow env
    let updated : AliasBinding = record (found.1) {
      asset_id = some new_asset_id;
      previous_asset_id = none;
      updated_at = now;
    }
    store_binding key updated
    add_alias_to_asset new_asset_id key
    audit env "alias.rebind" key caller "success"
        (asset_detail (get_or found.1.previous_asset_id "")) (asset_detail new_asset_id)
    pure updated

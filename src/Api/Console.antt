-- ===== src/Api/Console.antt =====
-- src/asset_store_core/api/admin.py: the endpoints of the operator's console that change one asset or
-- a quota, all guarded by `require_admin`. Static files, headers, logs and counters are not modelled.
use Prim.Native.String.{◌++◌}
use prototype_cache.Prelude.{ℕ, String, Bool, true, false, not, Option, nat_eq, contains, none}
use prototype_cache.Prelude.Int.{ℤ}
use prototype_cache.Prelude.Dict.{Dict}
use prototype_cache.Prelude.Text.{strip, is_space, is_slash}
use prototype_cache.Errors.{
  Error, validation, request_validation, invalid_state_transition, alias_immutable,
}
use prototype_cache.Exec.{Exec, pure, raise, or_fail, raise_when, if_else, catch, ◌>>=◌, ◌>>◌}
use prototype_cache.Models.{Asset, EvictionPolicy}
use prototype_cache.Registry.State.{get_asset}
use prototype_cache.Registry.Counters.{set_partition_quota}
use prototype_cache.Registry.Lifecycle.{
  expire_asset, delete_asset, set_asset_ttl, update_annotations, set_eviction_policy,
}
use prototype_cache.Registry.Aliases.{attach_alias, detach_alias, detach_mutable_alias}
use prototype_cache.Api.State.{Service, App, in_registry}
use prototype_cache.Api.Identity.{require_admin}
use prototype_cache.Api.Assets.{is_positive}
use prototype_cache.Api.Filters.{is_given, given}
use prototype_cache.Api.Legacy.{whole}
use prototype_cache.Api.Schemas.{AssetOut, from_asset, PartitionQuotaOut, from_partition_quota}

pub data Action : Type 0 where
  expire delete ttl attach detach annotations eviction : Action

pub record Mutation : Type 0 where
  pub expected_updated_at : ℕ
  pub action : Action
  pub ttl_seconds : Option ℤ
  pub alias : Option String
  pub mutable : Bool
  pub annotations : Option (Dict String String)
  pub eviction_policy : Option EvictionPolicy

-- `from_asset` without the storage key
unfoldable pub public_asset : Asset → AssetOut
public_asset asset = record (from_asset asset) { storage_key = none }

abbrev is_immutable : Error → Bool
is_immutable alias_immutable = true
is_immutable _ = false

module _ {S : Type 0} (service : Service S) where
  -- the deletion of a name of the asset that was inspected
  unfoldable pub detach_name : Asset → String → Exec (App S) (Unit {0})
  detach_name asset alias = do
    let name = strip is_slash (strip is_space alias)
    raise_when (not (contains (asset.space ++ "/" ++ name) asset.aliases)) validation
    catch (in_registry (detach_alias service.env asset.space name "admin")) (λ e.
        if_else (is_immutable e)
          (do
            binding ← in_registry (detach_mutable_alias service.env asset.space name "admin")
            pure tt)
          (raise e))

  -- one action on the asset `asset`, which was read at the beginning
  unfoldable pub perform : Action → Asset → String → Mutation → Exec (App S) (Unit {0})
  unfolding detach_name
  perform expire asset asset_id body = do
    done ← in_registry (expire_asset service.env asset_id "admin")
    pure tt
  perform delete asset asset_id body = do
    done ← in_registry (delete_asset service.env asset_id "admin")
    pure tt
  perform ttl asset asset_id body = do
    ttl_seconds ← or_fail body.ttl_seconds validation
    done ← in_registry (set_asset_ttl service.env asset_id ttl_seconds "admin")
    pure tt
  perform attach asset asset_id body = do
    raise_when (not (is_given body.alias)) validation
    done ← in_registry (attach_alias service.env asset_id (given body.alias) body.mutable "admin")
    pure tt
  perform detach asset asset_id body = do
    raise_when (not (is_given body.alias)) validation
    detach_name asset (given body.alias)
  perform annotations asset asset_id body = do
    patch ← or_fail body.annotations validation
    done ← in_registry (update_annotations service.env asset_id patch "admin" true)
    pure tt
  perform eviction asset asset_id body = do
    policy ← or_fail body.eviction_policy validation
    done ← in_registry (set_eviction_policy service.env asset_id policy "admin")
    pure tt

  unfoldable pub mutate : String → String → Mutation → Exec (App S) AssetOut
  unfolding perform
  mutate authorization asset_id body = do
    caller ← require_admin service authorization
    raise_when (not (is_positive body.ttl_seconds)) request_validation
    asset ← in_registry (get_asset asset_id)
    raise_when (not (nat_eq body.expected_updated_at asset.updated_at)) invalid_state_transition
    perform body.action asset asset_id body
    after ← in_registry (get_asset asset_id)
    pure (public_asset after)

  unfoldable pub quota :
      String → String → String → Option ℕ → Option ℕ → Option Bool → Exec (App S) PartitionQuotaOut
  quota authorization space partition_id quota_bytes quota_asset_count sweep = do
    caller ← require_admin service authorization
    set ← in_registry (
        set_partition_quota service.env space partition_id (whole quota_bytes)
          (whole quota_asset_count) sweep "admin")
    pure (from_partition_quota set)

-- ===== src/Api/Assets.antt =====
-- The endpoints of services: `reserve`, `commit` and `resolve`, and `observe_bucket_fill`, of which
-- only the lookup of the quota is modelled.
use prototype_cache.Prelude.{
  ℕ, String, Bool, true, false, not, ◌&&◌, ◌||◌, Option, none, some, List, [], ◌∷◌, str_eq, nat_eq,
  leb, is_some,
}
use prototype_cache.Prelude.Int.{ℤ, pos}
use prototype_cache.Prelude.Dict.{Dict, insert, text_key}
use prototype_cache.Errors.{
  capability_denied, object_not_found, checksum_mismatch, request_validation,
}
use prototype_cache.Exec.{Exec, pure, lift, or_fail, raise_when, ◌>>=◌, ◌>>◌}
use prototype_cache.Models.{EvictionPolicy}
use prototype_cache.Storage.{for_asset}
use prototype_cache.Capabilities.Scope.{read, write}
use prototype_cache.ServicePolicy.{assert_service_bucket_allowed}
use prototype_cache.Registry.State.{get_asset}
use prototype_cache.Registry.Names.{flags}
use prototype_cache.Registry.Quota.{bucket_quota}
use prototype_cache.Registry.Lifecycle.{commit_asset}
use prototype_cache.Registry.Aliases.{reserve_asset, resolve_alias}
use prototype_cache.DataPlane.{on_store}
use prototype_cache.Api.State.{Service, App, on_plane, in_registry}
use prototype_cache.Api.Identity.{require_service_identity}
use prototype_cache.Api.Schemas.{AssetOut, from_asset}

pub record AliasSpecIn : Type 0 where
  pub name : String
  pub mutable : Bool

pub record ReserveRequest : Type 0 where
  pub space : String
  pub partition_id : String
  pub aliases : List AliasSpecIn
  pub owner_service_id : String
  pub mime : Option String
  pub annotations : Dict String String
  pub eviction_policy : EvictionPolicy
  pub ttl_seconds : Option ℤ

pub record CommitRequest : Type 0 where
  pub size_bytes : ℕ
  pub checksum : String
  pub caller_service_id : String
  pub mime : Option String
  pub expected_checksum : Option String

-- `{spec.name: spec.mutable for spec in aliases}`, added to a dictionary
unfoldable pub mutable_flags : List AliasSpecIn → Dict String Bool → Dict String Bool
mutable_flags [] d = d
mutable_flags (spec ∷ rest) d = mutable_flags rest (insert spec.name spec.mutable d)

-- `Field(gt=0)` of an optional number
abbrev pub is_positive : Option ℤ → Bool
is_positive none = true
is_positive (some n) = is_some (prototype_cache.Prelude.Int.positive? n)

abbrev no_items : List AliasSpecIn → Bool
no_items [] = true
no_items (spec ∷ rest) = false

module _ {S : Type 0} (service : Service S) where
  -- what `reserve` tests before it reserves
  unfoldable pub check_reserve : String → ReserveRequest → Exec (App S) (Unit {0})
  check_reserve authorization body = do
    caller ← require_service_identity service authorization
    raise_when (no_items body.aliases || not (is_positive body.ttl_seconds)) request_validation
    raise_when (not (str_eq body.owner_service_id caller)) capability_denied
    lift (assert_service_bucket_allowed caller body.space write)

  unfoldable pub reserve : String → ReserveRequest → Exec (App S) AssetOut
  unfolding check_reserve
  reserve authorization body = do
    check_reserve authorization body
    asset ← in_registry (
        reserve_asset service.env body.space body.partition_id
          (flags (mutable_flags body.aliases [])) body.owner_service_id body.mime body.annotations
          body.eviction_policy body.ttl_seconds none)
    pure (from_asset asset)

  unfoldable pub observe_bucket_fill : String → Exec (App S) (Unit {0})
  observe_bucket_fill space = do quota ← in_registry λ s. (bucket_quota s space, s); pure tt

  unfoldable pub commit : String → String → CommitRequest → Exec (App S) AssetOut
  unfolding observe_bucket_fill
  commit authorization asset_id body = do
    caller ← require_service_identity service authorization
    raise_when (not (str_eq body.caller_service_id caller)) capability_denied
    reserved ← in_registry (get_asset asset_id)
    lift (assert_service_bucket_allowed caller reserved.space write)
    raise_when (not (str_eq reserved.owner_service_id caller) && not (str_eq caller "admin"))
        capability_denied
    location ← lift (for_asset reserved.space reserved.partition_id reserved.asset_id)
    found ← on_plane (on_store (service.store.stat location))
    stat ← or_fail found object_not_found
    raise_when
        (not (nat_eq body.size_bytes stat.size_bytes) || not (str_eq body.checksum stat.checksum))
        checksum_mismatch
    asset ← in_registry (
        commit_asset service.env asset_id (pos stat.size_bytes) stat.checksum caller body.mime
          body.expected_checksum)
    observe_bucket_fill asset.space
    pure (from_asset asset)

  unfoldable pub resolve : String → String → String → Exec (App S) AssetOut
  resolve authorization space alias = do
    caller ← require_service_identity service authorization
    lift (assert_service_bucket_allowed caller space read)
    asset ← in_registry (resolve_alias service.env space alias)
    pure (from_asset asset)

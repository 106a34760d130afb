-- ===== src/Guard/Access.antt =====
-- `resolve_for_read`, `read_bytes`, `presign_read` and `authorize_write`.
use prototype_cache.Prelude.{
  ℕ, ◌+◌, ◌*◌, ◌-◌, ◌/◌, String, Option, none, some, List, leb, ltb, if◌then◌else◌,
}
use prototype_cache.Prelude.Int.{ℤ, positive?}
use prototype_cache.Errors.{validation, capability_denied, asset_expired}
use prototype_cache.Exec.{Exec, pure, lift, or_fail, raise_when, ◌>>=◌, ◌>>◌}
use prototype_cache.Models.{Asset}
use prototype_cache.Env.{Env}
use prototype_cache.Storage.{ObjectStoreLocation, for_asset}
use prototype_cache.Retention.{second}
use prototype_cache.ObjectStore.Backend.{ObjectStoreBackend}
use prototype_cache.Capabilities.Scope.{Capability, Operation, read, write, require}
use prototype_cache.Capabilities.Ledger.{prune_expired, assert_unused, record_successful_use}
use prototype_cache.ServicePolicy.{assert_service_bucket_allowed}
use prototype_cache.Registry.Aliases.{resolve_alias}
use prototype_cache.Registry.Lifecycle.{record_read}
use prototype_cache.DataPlane.{DataPlane, on_registry, on_store, on_ledger, read_clock}
use prototype_cache.Guard.Alias.{ParsedAlias, parse_alias}

abbrev pub max_presign_ttl_seconds : ℕ
max_presign_ttl_seconds = 3600

pub record GuardedRead : Type 0 where
  pub asset : Asset
  pub location : ObjectStoreLocation

pub record PresignedRead : Type 0 where
  pub asset : Asset
  pub url : String
  pub expires_in : ℕ
  pub expires_at : ℕ

abbrev pub lesser : ℕ → ℕ → ℕ
lesser a b = if ltb b a then b else a

-- `int((t - now).total_seconds())`; where `t` is past, both are refused
abbrev pub seconds_left : ℕ → ℕ → ℕ
seconds_left t now = (t - now) / second

module _ (env : Env) {S : Type 0} (backend : ObjectStoreBackend S) where
  unfoldable pub prune_consumed_capabilities : Exec (DataPlane S) (Unit {0})
  prune_consumed_capabilities = do now ← read_clock env; on_ledger (prune_expired now)

  -- what each operation begins with
  unfoldable pub authorize : Operation → Capability → String → Exec (DataPlane S) ParsedAlias
  authorize operation capability alias = do
    parsed ← lift (parse_alias alias)
    required_at ← read_clock env
    lift (require capability operation parsed.qualified required_at)
    checked_at ← read_clock env
    on_ledger (assert_unused capability checked_at)
    lift (assert_service_bucket_allowed capability.caller_service_id parsed.space operation)
    pure parsed

  unfoldable pub resolve_for_read : Capability → String → Exec (DataPlane S) GuardedRead
  resolve_for_read capability alias = do
    parsed ← authorize read capability alias
    asset ← on_registry (resolve_alias env parsed.space parsed.relative)
    location ← lift (for_asset asset.space asset.partition_id asset.asset_id)
    pure (record { asset = asset; location = location })

  unfoldable pub read_bytes : Capability → String → Exec (DataPlane S) (List ℕ)
  read_bytes capability alias = do
    guarded ← resolve_for_read capability alias
    content ← on_store (backend.get guarded.location)
    on_registry (record_read env guarded.asset.asset_id)
    used_at ← read_clock env
    on_ledger (record_successful_use capability used_at)
    pure content

  -- the lifetime of the asset bounds that of the URL
  unfoldable pub within_lifetime : Option ℕ → ℕ → Exec (DataPlane S) ℕ
  within_lifetime none ttl = pure ttl
  within_lifetime (some expires_at) ttl = do
    now ← read_clock env
    let bounded = lesser ttl (seconds_left expires_at now)
    raise_when (leb bounded 0) asset_expired
    pure bounded

  -- `presign_read`, once the read is authorized and resolved
  unfoldable pub mint_url : Capability → ℕ → GuardedRead → Exec (DataPlane S) PresignedRead
  unfolding within_lifetime
  mint_url capability asked guarded = do
    now ← read_clock env
    let remaining = seconds_left capability.expires_at now
    raise_when (leb remaining 0) capability_denied
    ttl ←
        within_lifetime guarded.asset.expires_at
          (lesser (lesser asked max_presign_ttl_seconds) remaining)
    url ← on_store (backend.presign guarded.location ttl)
    on_registry (record_read env guarded.asset.asset_id)
    minted_at ← read_clock env
    pure (record {
      asset = guarded.asset;
      url = url;
      expires_in = ttl;
      expires_at = minted_at + ttl * second;
    })

  unfoldable pub presign_read : Capability → String → ℤ → Exec (DataPlane S) PresignedRead
  presign_read capability alias expires_in = do
    raise_when capability.single_use capability_denied
    asked ← or_fail (positive? expires_in) validation
    guarded ← resolve_for_read capability alias
    mint_url capability asked guarded

  unfoldable pub authorize_write : Capability → String → Exec (DataPlane S) (Unit {0})
  authorize_write capability alias = do parsed ← authorize write capability alias; pure tt

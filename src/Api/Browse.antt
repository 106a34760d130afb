-- ===== src/Api/Browse.antt =====
-- src/asset_store_core/api/admin.py: the endpoints of the operator's console that only read. A page
-- of the listing holds the key that its cursor encodes.
use prototype_cache.Prelude.{
  ℕ, String, true, false, not, ◌&&◌, Option, none, some, List, [], ◌∷◌, leb, ltb, take, drop,
  length, ◌-◌,
}
use mathlib.Core.List.{map}
use prototype_cache.Errors.{request_validation}
use prototype_cache.Exec.{Exec, pure, lift, raise_when, if_else, ◌>>=◌, ◌>>◌}
use prototype_cache.Models.{Asset, AuditEvent}
use prototype_cache.AdminQuery.{AssetQuery}
use prototype_cache.Registry.State.{get_asset}
use prototype_cache.Registry.Queries.{query_assets, recent_audit, sort_key}
use prototype_cache.Registry.Quota.{partition_quota}
use prototype_cache.Api.State.{Service, App, in_registry}
use prototype_cache.Api.Identity.{require_admin}
use prototype_cache.Api.Filters.{is_given, given, validated}
use prototype_cache.Api.Console.{public_asset}
use prototype_cache.Api.Schemas.{AssetOut, PartitionQuotaOut, from_partition_quota}

-- a page of the listing: its items, the key of its last row where there are more, and the quota
pub record Page : Type 0 where
  pub items : List AssetOut
  pub next_cursor : Option (ℕ × String)
  pub quota : Option PartitionQuotaOut

-- the last row, `rows[-1]`
abbrev last_key : List Asset → Option (ℕ × String)
last_key [] = none
last_key (a ∷ []) = some (sort_key a)
last_key (a ∷ b ∷ rest) = last_key (b ∷ rest)

module _ {S : Type 0} (service : Service S) where
  -- the quota of the partition that a query names
  unfoldable pub quota_of : AssetQuery → Exec (App S) (Option PartitionQuotaOut)
  quota_of query =
      if_else (is_given query.space && is_given query.partition_id)
        (do
          set ←
              in_registry λ s. (partition_quota s (given query.space) (given query.partition_id), s)
          pure (some (from_partition_quota set)))
        (pure none)

  unfoldable pub listing : String → AssetQuery → Exec (App S) Page
  unfolding quota_of
  listing authorization asked = do
    caller ← require_admin service authorization
    query ← lift (validated asked)
    rows ← in_registry λ s. (query_assets s query, s)
    let more = ltb query.limit (length rows)
    let shown = take query.limit rows
    found ← quota_of query
    pure (record {
      items = map public_asset shown;
      next_cursor = elim more [ true ↦ last_key shown | false ↦ none ];
      quota = found;
    })

  unfoldable pub inspect : String → String → Exec (App S) (AssetOut × List AuditEvent)
  inspect authorization asset_id = do
    caller ← require_admin service authorization
    asset ← in_registry (get_asset asset_id)
    events ← in_registry λ s. (recent_audit s (some asset_id) 100, s)
    pure (public_asset asset, drop (length events - 100) events)

  unfoldable pub audit : String → ℕ → Exec (App S) (List AuditEvent)
  audit authorization limit = do
    caller ← require_admin service authorization
    raise_when (not (leb 1 limit && leb limit 500)) request_validation
    in_registry λ s. (recent_audit s none limit, s)

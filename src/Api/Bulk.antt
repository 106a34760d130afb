-- ===== src/Api/Bulk.antt =====
-- src/asset_store_core/api/admin.py: the expiry of all assets with a name under a prefix, which is
-- first previewed.
use prototype_cache.Prelude.{
  ℕ, ◌+◌, String, Bool, false, not, ◌||◌, Option, List, [], ◌∷◌, ltb, nat_eq, contains, length,
}
use mathlib.Core.List.{map}
use prototype_cache.Errors.{validation, request_validation}
use prototype_cache.Exec.{Exec, pure, lift, raise_when, if_else, ◌>>=◌, ◌>>◌}
use prototype_cache.Models.{Asset, available, state_eq}
use prototype_cache.AdminQuery.{any_prefix}
use prototype_cache.Registry.State.{get_asset}
use prototype_cache.Registry.Queries.{query_assets}
use prototype_cache.Registry.Lifecycle.{expire_asset}
use prototype_cache.Api.State.{Service, App, in_registry}
use prototype_cache.Api.Identity.{require_admin}
use prototype_cache.Api.Filters.{given, bulk_query}

pub record Candidate : Type 0 where
  pub asset_id : String
  pub expected_updated_at : ℕ

pub record Applied : Type 0 where
  pub applied : ℕ
  pub skipped : ℕ

abbrev pub candidate_of : Asset → Candidate
candidate_of a = record { asset_id = a.asset_id; expected_updated_at = a.updated_at }

abbrev is_repeated : List Candidate → Bool
is_repeated [] = false
is_repeated (c ∷ rest) =
    contains c.asset_id (map (λ (d : Candidate). d.asset_id) rest) || is_repeated rest

module _ {S : Type 0} (service : Service S) where
  unfoldable pub preview : String → String → Exec (App S) (Option String × List Candidate)
  preview authorization prefix = do
    caller ← require_admin service authorization
    query ← lift (bulk_query prefix)
    rows ← in_registry λ s. (query_assets s query, s)
    raise_when (ltb query.limit (length rows)) validation
    pure (query.prefix, map candidate_of rows)

  -- what the loop of `bulk` does for one candidate
  unfoldable pub expire_candidate : String → Candidate → Applied → Exec (App S) Applied
  expire_candidate prefix candidate counts = do
    asset ← in_registry (get_asset candidate.asset_id)
    if_else
        (not (nat_eq asset.updated_at candidate.expected_updated_at)
          || not (state_eq asset.state available)
          || not (any_prefix asset.aliases prefix))
        (pure (record counts { skipped = counts.skipped + 1 }))
        (do
          done ← in_registry (expire_asset service.env asset.asset_id "admin")
          pure (record counts { applied = counts.applied + 1 }))

  -- the loop of `bulk` over the candidates
  unfoldable pub expire_candidates : String → List Candidate → Applied → Exec (App S) Applied
  unfolding expire_candidate
  expire_candidates prefix [] counts = pure counts
  expire_candidates prefix (candidate ∷ rest) counts = do
    counted ← expire_candidate prefix candidate counts
    expire_candidates prefix rest counted

  unfoldable pub bulk : String → String → List Candidate → Exec (App S) Applied
  unfolding expire_candidates
  bulk authorization prefix candidates = do
    caller ← require_admin service authorization
    raise_when (ltb 500 (length candidates)) request_validation
    query ← lift (bulk_query prefix)
    raise_when (is_repeated candidates) validation
    expire_candidates (given query.prefix) candidates (record { applied = 0; skipped = 0 })

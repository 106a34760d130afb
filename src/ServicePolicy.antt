-- ===== src/ServicePolicy.antt =====
-- src/asset_store_core/service_policy.py: which service may read and write which buckets.
pub mod Allowed
use prototype_cache.Prelude.{String, Bool, List, [], ◌∷◌, ◌++◌, not, contains}
use prototype_cache.Prelude.Dict.{Dict, lookup, text_key}
use prototype_cache.Prelude.Text.{strip, is_space}
use prototype_cache.Errors.{Result, ok, err, capability_denied, raise_if, or_raise, ◌>>=◌, ◌>>◌}
use prototype_cache.Paths.{storage_buckets, normalize_bucket}
use prototype_cache.Capabilities.Scope.{Operation, read, write}

abbrev keys : Dict String (List String) → List String
keys [] = []
keys ((service_id, buckets) ∷ rest) = service_id ∷ keys rest

abbrev pub service_read_buckets : Dict String (List String)
service_read_buckets =
    ("fetcher", "cache" ∷ "tmp" ∷ [])
    ∷ ("upload-api", "users" ∷ "tmp" ∷ [])
    ∷ ("bulk-loader", "cache" ∷ [])
    ∷ ("worker", "cache" ∷ "users" ∷ "tmp" ∷ "results" ∷ [])
    ∷ ("task-api", "cache" ∷ "users" ∷ "tmp" ∷ [])
    ∷ ("admin", storage_buckets)
    ∷ ("iiif-server", "cache" ∷ "users" ∷ [])
    ∷ []

abbrev pub service_write_buckets : Dict String (List String)
service_write_buckets =
    ("fetcher", "cache" ∷ "tmp" ∷ [])
    ∷ ("upload-api", "users" ∷ "tmp" ∷ [])
    ∷ ("bulk-loader", "cache" ∷ [])
    ∷ ("worker", "results" ∷ [])
    ∷ ("task-api", "tmp" ∷ [])
    ∷ ("admin", storage_buckets)
    ∷ ("iiif-server", [])
    ∷ []

-- every service with a row of reads or of writes
abbrev pub known_service_ids : List String
known_service_ids = keys service_read_buckets ++ keys service_write_buckets

abbrev pub table_for : Operation → Dict String (List String)
table_for read = service_read_buckets
table_for write = service_write_buckets

unfoldable pub buckets_for_service : String → Operation → Result (List String)
unfolding lookup
buckets_for_service service_id operation =
    or_raise (lookup (strip is_space service_id) (table_for operation)) capability_denied

unfoldable pub assert_service_bucket_allowed : String → String → Operation → Result (Unit {0})
unfolding buckets_for_service
assert_service_bucket_allowed service_id bucket operation = do
  allowed ← buckets_for_service service_id operation
  norm ← normalize_bucket bucket
  raise_if (not (contains norm allowed)) capability_denied

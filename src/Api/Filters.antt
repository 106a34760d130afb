-- ===== src/Api/Filters.antt =====
-- src/asset_store_core/api/admin.py: the queries of the console, tested.
use prototype_cache.Prelude.{
  ℕ, String, Bool, true, false, not, ◌&&◌, Option, none, some, leb, ltb, str_eq, length,
}
use prototype_cache.Prelude.Text.{split}
use prototype_cache.Errors.{
  Result, ok, err, validation, value_error, request_validation, raise_if, ◌>>=◌, ◌>>◌,
}
use prototype_cache.Models.{available}
use prototype_cache.AdminQuery.{AssetQuery, validate_filters}

-- `if value:` of an optional text
abbrev pub is_given : Option String → Bool
is_given none = false
is_given (some t) = not (str_eq t "")

abbrev pub given : Option String → String
given none = ""
given (some t) = t

-- a query of the request that its model has passed: a `ValueError` in there is a failed validation
abbrev pub validated : AssetQuery → Result AssetQuery
validated query = elim (leb 1 query.limit && leb query.limit 500) [
  | false ↦ err request_validation
  | true ↦ elim (validate_filters query) [ err value_error ↦ err request_validation | r ↦ r ]
]

abbrev prefix_parts : Option String → ℕ
prefix_parts none = 0
prefix_parts (some prefix) = length (split prefix)

unfoldable pub bulk_query : String → Result AssetQuery
bulk_query prefix = do
  query ← validate_filters (record {
    space = none;
    partition_id = none;
    state = some available;
    created_from = none;
    created_to = none;
    prefix = some prefix;
    limit = 500;
    after = ok none;
  })
  raise_if (ltb (prefix_parts query.prefix) 2) validation
  ok query

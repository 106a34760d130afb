-- ===== src/AdminQuery.antt =====
-- src/asset_store_core/admin_query.py: the filters of the admin listing. The cursor's encoding
-- (base64 of JSON with a hash) is not modelled: a query holds what `after()` reads from it.
use Prim.Native.String.{◌++◌}
use text.Mathlib.Text.{starts_with}
use prototype_cache.Prelude.{
  ℕ, String, Bool, true, false, ◌&&◌, ◌||◌, Option, none, some, List, [], ◌∷◌, ltb, leb, str_eq,
}
use prototype_cache.Prelude.Text.{split}
use prototype_cache.Errors.{Result, ok, err, value_error, raise_if, ◌>>=◌, ◌>>◌}
use prototype_cache.Models.{Asset, AssetState, state_eq}
use prototype_cache.Paths.{normalize_space, normalize_partition_id, normalize_relative_alias}
use prototype_cache.Registry.Names.{first_segment}

pub record AssetQuery : Type 0 where
  pub space : Option String
  pub partition_id : Option String
  pub state : Option AssetState
  pub created_from : Option ℕ
  pub created_to : Option ℕ
  pub prefix : Option String
  pub limit : ℕ
  -- what `after()` returns or raises for the query's cursor
  pub after : Result (Option (ℕ × String))

-- `if value:` of an optional text
abbrev truthy : Option String → Option String
truthy none = none
truthy (some t) = elim (str_eq t "") [ true ↦ none | false ↦ some t ]

-- `value = normalize(value)` under `if value:`; an empty text stays
abbrev normalized : (String → Result String) → Option String → Result (Option String)
normalized f o = elim (truthy o) [ none ↦ ok o | some t ↦ do v ← f t; ok (some v) ]

abbrev is_after : Option ℕ → Option ℕ → Bool
is_after (some a) (some b) = ltb b a
is_after _ _ = false

-- the bucket that a prefix begins with
abbrev check_prefix_space : Option String → Result (Unit {0})
check_prefix_space o = elim (truthy o) [
  | none ↦ ok tt
  | some p ↦ do space ← normalize_space (first_segment (split p)); ok tt
]

-- `partition_id requires space`
abbrev check_partition_space : Option String → Option String → Result (Unit {0})
check_partition_space partition space = elim (truthy partition) [
  | none ↦ ok tt
  | some p ↦ elim (truthy space) [ none ↦ err value_error | some s ↦ ok tt ]
]

unfoldable pub validate_filters : AssetQuery → Result AssetQuery
validate_filters q = do
  space ← normalized normalize_space q.space
  check_partition_space q.partition_id space
  partition_id ← normalized normalize_partition_id q.partition_id
  prefix ← normalized normalize_relative_alias q.prefix
  check_prefix_space prefix
  raise_if (is_after q.created_from q.created_to) value_error
  ok (record q { space = space; partition_id = partition_id; prefix = prefix })

unfoldable pub prefix_matches : String → String → Bool
prefix_matches alias prefix = str_eq alias prefix || starts_with alias (prefix ++ "/")

-- `any(prefix_matches(a, prefix) for a in aliases)`
unfoldable pub any_prefix : List String → String → Bool
unfolding prefix_matches
any_prefix [] prefix = false
any_prefix (a ∷ rest) prefix = prefix_matches a prefix || any_prefix rest prefix

-- `x is None or test(x)`
abbrev admits {ℓ} : {A : Type ℓ} → Option A → (A → Bool) → Bool
admits none test = true
admits (some x) test = test x

unfoldable pub matches : AssetQuery → Asset → Bool
unfolding any_prefix
matches q asset =
    admits q.space (λ v. str_eq asset.space v)
    && admits q.partition_id (λ v. str_eq asset.partition_id v)
    && admits q.state (λ v. state_eq asset.state v)
    && admits q.created_from (λ v. leb v asset.created_at)
    && admits q.created_to (λ v. leb asset.created_at v)
    && admits q.prefix (λ v. any_prefix asset.aliases v)

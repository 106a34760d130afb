-- ===== src/Guard/Alias.antt =====
-- `_parse_alias`: a qualified alias `space/partition/name...` and its parts.
use prototype_cache.Prelude.{String, List, ◌∷◌, str_eq}
use prototype_cache.Prelude.Text.{split, join}
use prototype_cache.Errors.{Result, err, ok, validation, raise_if, ◌>>=◌, ◌>>◌}
use prototype_cache.Paths.{
  trim, normalize_space, normalize_relative_alias, normalize_partition_id, qualified_alias,
}

pub record ParsedAlias : Type 0 where
  pub space : String
  pub relative : String
  pub partition_id : String
  pub alias_in_partition : String
  pub qualified : String

-- `s.partition("/")`, refused where nothing follows a separator
unfoldable pub partition_at : List String → Result (String × String)
partition_at (first ∷ next ∷ rest) = do
  let remainder = join (next ∷ rest)
  raise_if (str_eq remainder "") validation
  ok (first, remainder)
partition_at _ = err validation

unfoldable pub parse_alias : String → Result ParsedAlias
unfolding trim split join partition_at
parse_alias alias = do
  outer ← partition_at (split (trim alias))
  space ← normalize_space outer.0
  relative ← normalize_relative_alias outer.1
  inner ← partition_at (split relative)
  partition_id ← normalize_partition_id inner.0
  alias_in_partition ← normalize_relative_alias inner.1
  qualified ← qualified_alias space relative
  ok (record {
    space = space;
    relative = relative;
    partition_id = partition_id;
    alias_in_partition = alias_in_partition;
    qualified = qualified;
  })

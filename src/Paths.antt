-- ===== src/Paths.antt =====
-- src/asset_store_core/paths.py: the names of buckets, partitions and aliases.
pub mod Normal
pub mod Safe
use prototype_cache.Prelude.{String, Bool, true, false, ◌||◌, List, [], ◌∷◌, not, contains, str_eq}
use prototype_cache.Prelude.Text.{strip, split, slashed, is_space, is_slash}
use prototype_cache.Errors.{Result, ok, validation, raise_if, ◌>>=◌, ◌>>◌}

abbrev pub storage_buckets : List String
storage_buckets = "cache" ∷ "tmp" ∷ "users" ∷ "results" ∷ []

-- `"/" in name`: `split` finds a separator
abbrev pub has_slash : List String → Bool
has_slash (v ∷ w ∷ ws) = true
has_slash _ = false

-- `x.strip().strip("/")`
unfoldable pub trim : String → String
unfolding strip is_space is_slash
trim s = strip is_slash (strip is_space s)

unfoldable pub normalize_bucket : String → Result String
unfolding trim split
normalize_bucket bucket = do
  let name = trim bucket
  raise_if (str_eq name "") validation
  raise_if (has_slash (split name)) validation
  raise_if (contains name ("." ∷ ".." ∷ [])) validation
  raise_if (not (contains name storage_buckets)) validation
  ok name

unfoldable pub normalize_space : String → Result String
unfolding normalize_bucket
normalize_space space = normalize_bucket space

-- the test on each segment of a path
unfoldable pub is_bad_segment : String → Bool
is_bad_segment part = str_eq part "" || str_eq part "." || str_eq part ".."

unfoldable pub check_segments : List String → Result (Unit {0})
unfolding is_bad_segment
check_segments [] = ok tt
check_segments (part ∷ parts) = do raise_if (is_bad_segment part) validation; check_segments parts

unfoldable pub normalize_relative_alias : String → Result String
unfolding trim split check_segments
normalize_relative_alias alias = do
  let a = trim alias
  raise_if (str_eq a "") validation
  check_segments (split a)
  ok a

unfoldable pub normalize_partition_id : String → Result String
unfolding normalize_relative_alias
normalize_partition_id partition_id = normalize_relative_alias partition_id

unfoldable pub qualified_alias : String → String → Result String
unfolding normalize_space normalize_relative_alias
qualified_alias space alias = do
  s ← normalize_space space
  a ← normalize_relative_alias alias
  ok (slashed s a)

unfoldable pub qualified_alias_for_partition : String → String → String → Result String
unfolding normalize_partition_id qualified_alias
qualified_alias_for_partition space partition_id relative_alias = do
  p ← normalize_partition_id partition_id
  a ← normalize_relative_alias relative_alias
  qualified_alias space (slashed p a)

-- ===== src/Registry/Names.antt =====
-- src/asset_store_core/registry.py: the names of aliases (`_normalize_alias_specs`,
-- `_alias_under_partition`, `_partition_from_scoped_alias`, `AliasBinding.qualified_alias`).
use Prim.Native.String.{◌++◌}
use text.Mathlib.Text.{starts_with}
use prototype_cache.Prelude.{
  String, Bool, false, ◌||◌, List, [], ◌∷◌, str_eq, contains, if◌then◌else◌,
}
use prototype_cache.Prelude.Text.{split, slashed}
use prototype_cache.Prelude.Dict.{Dict, insert, text_key}
use prototype_cache.Errors.{Result, ok, ◌>>=◌}
use prototype_cache.Models.{AliasBinding}
use prototype_cache.Paths.{normalize_relative_alias, normalize_partition_id, qualified_alias}

-- `Iterable[str] | Mapping[str, bool]`
pub data AliasSpecs : Type 0 where
  names : List String → AliasSpecs
  flags : List (String × Bool) → AliasSpecs

abbrev immutable : List String → List (String × Bool)
immutable [] = []
immutable (alias ∷ rest) = (alias, false) ∷ immutable rest

-- a dict comprehension: a later entry of a name replaces the earlier one
unfoldable pub normalize_entries :
    List (String × Bool) → Dict String Bool → Result (Dict String Bool)
normalize_entries [] specs = ok specs
normalize_entries ((alias, mutable) ∷ rest) specs = do
  name ← normalize_relative_alias alias
  normalize_entries rest (insert name mutable specs)

abbrev entries : AliasSpecs → List (String × Bool)
entries (names aliases) = immutable aliases
entries (flags aliases) = aliases

-- `_normalize_alias_specs`
unfoldable pub normalize_alias_specs : AliasSpecs → Result (Dict String Bool)
unfolding normalize_entries
normalize_alias_specs aliases = normalize_entries (entries aliases) []

-- `_alias_under_partition`
unfoldable pub alias_under_partition : String → String → Result String
alias_under_partition partition_id relative_alias = do
  rel ← normalize_relative_alias relative_alias
  prefix ← normalize_partition_id partition_id
  if str_eq rel prefix || starts_with rel (prefix ++ "/") then ok rel else ok (slashed prefix rel)

-- `s.split("/", 1)[0]`
abbrev pub first_segment : List String → String
first_segment [] = ""
first_segment (w ∷ ws) = w

-- `_partition_from_scoped_alias`
unfoldable pub partition_from_scoped_alias : String → Result String
partition_from_scoped_alias scoped_alias =
    normalize_partition_id (first_segment (split scoped_alias))

-- `AliasBinding.qualified_alias`
unfoldable pub binding_key : AliasBinding → Result String
binding_key binding = qualified_alias binding.space binding.alias

-- the key of `_get_binding` and of `_alias_name_is_blocked`
abbrev pub add_member : String → List String → List String
add_member a xs = if contains a xs then xs else a ∷ xs

-- `frozenset(a for a in aliases if a != key)`
abbrev pub without : String → List String → List String
without k [] = []
without k (a ∷ xs) = let rest = without k xs in if str_eq a k then rest else a ∷ rest

-- ===== src/Capabilities/Scope.antt =====
-- src/asset_store_core/capabilities.py: `Operation`, `Capability` and `_is_same_path_or_child`. A
-- time is in UTC, so the check that it has a zone is not modelled.
pub mod Segments
use Prim.Native.String.{◌++◌}
use text.Mathlib.Text.{starts_with}
use prototype_cache.Prelude.{ℕ, String, Bool, true, false, not, ◌&&◌, ◌||◌, List, ◌∷◌, ltb, str_eq}
use prototype_cache.Prelude.Text.{strip, split, join, is_slash}
use prototype_cache.Errors.{Result, ok, err, validation, capability_denied, raise_if, ◌>>=◌, ◌>>◌}
use prototype_cache.Paths.{trim, normalize_space, normalize_relative_alias}

pub data Operation : Type 0 where
  read write : Operation

abbrev pub operation_eq : Operation → Operation → Bool
operation_eq read read = true
operation_eq write write = true
operation_eq _ _ = false

pub record Capability : Type 0 where
  pub capability_id : String
  pub operation : Operation
  pub scope_prefix : String
  pub expires_at : ℕ
  pub caller_service_id : String
  pub single_use : Bool

-- the segments of a scope: a bucket, and a path of at least one segment below it
abbrev check_parts : List String → Result (Unit {0})
check_parts (bucket ∷ first ∷ rest) = do
  space ← normalize_space bucket
  path ← normalize_relative_alias (join (first ∷ rest))
  ok tt
check_parts _ = err validation

-- `__post_init__`: `Capability(...)` raises unless its scope is a path below a bucket
unfoldable pub new_capability : Capability → Result Capability
unfolding trim
new_capability cap = do check_parts (split (trim cap.scope_prefix)); ok cap

-- `_is_same_path_or_child`
unfoldable pub is_same_path_or_child : String → String → Bool
unfolding strip is_slash
is_same_path_or_child candidate prefix =
    let c = strip is_slash candidate in
    let p = strip is_slash prefix in str_eq c p || starts_with c (p ++ "/")

unfoldable pub allows : Capability → Operation → String → ℕ → Bool
allows cap operation qualified_alias now =
    operation_eq operation cap.operation
    && ltb now cap.expires_at
    && is_same_path_or_child qualified_alias cap.scope_prefix

unfoldable pub require : Capability → Operation → String → ℕ → Result (Unit {0})
unfolding allows
require cap operation qualified_alias now =
    raise_if (not (allows cap operation qualified_alias now)) capability_denied

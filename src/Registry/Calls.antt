-- ===== src/Registry/Calls.antt =====
-- A client of src/asset_store_core/registry.py as a sequence of calls: the operations of the
-- registry that change its state, as one type, and the states that such calls reach.
pub mod Accounting
pub mod History
pub mod Sequences
use prototype_cache.Prelude.{ℕ, String, Bool, Option}
use prototype_cache.Prelude.Int.{ℤ}
use prototype_cache.Prelude.Dict.{Dict}
use prototype_cache.Models.{Asset, AssetState, EvictionPolicy, Ratio}
use prototype_cache.Env.{Env}
use prototype_cache.Registry.State.{Registry, registry_with, utcnow}
use prototype_cache.Registry.Names.{AliasSpecs}
use prototype_cache.Registry.Counters.{set_partition_quota, set_bucket_quota}
use prototype_cache.Registry.Lifecycle.{
  commit_asset, update_annotations, expire_asset, delete_asset, set_eviction_policy, record_read,
  lifecycle_update, set_asset_ttl,
}
use prototype_cache.Registry.Aliases.{
  reserve_asset, attach_alias, resolve_alias, detach_alias, detach_mutable_alias, rebind_alias,
}
use prototype_cache.Registry.Queries.{record_capability_issue}
use prototype_cache.Registry.Accounts.{Steps, IsWellFormed}
use prototype_cache.Registry.Steps.Reserve.{IsFresh}

-- The arguments of each operation, in the order of the operation's.
pub data Call : Type 0 where
  reserve :
      String
      → String
      → AliasSpecs
      → String
      → Option String
      → Dict String String
      → EvictionPolicy
      → Option ℤ
      → Option ℤ
      → Call
  attach : String → String → Bool → String → Call
  commit : String → ℤ → String → String → Option String → Option String → Call
  annotate : String → Dict String String → String → Bool → Call
  resolve : String → String → Call
  detach : String → String → String → Call
  detach_mutable : String → String → String → Call
  rebind : String → String → String → String → Call
  expire : String → String → Call
  delete : String → String → Call
  set_policy : String → EvictionPolicy → String → Call
  limit_partition : String → String → Option ℤ → Option ℤ → Option Bool → String → Call
  limit_bucket : String → Option ℤ → Ratio → Ratio → Call
  read : String → Call
  clean_up : Asset → AssetState → ℕ → String → Bool → Call
  set_ttl : String → ℤ → String → Call
  issue_capability : String → String → String → ℕ → String → Option String → Call
  -- another part of the process reads the clock
  tick : Call

-- The state that a call leaves, whether it returns or raises.
unfoldable pub run : Env → Call → Registry → Registry
run env (reserve a b c d e f g h i) s = (reserve_asset env a b c d e f g h i s).1
run env (attach a b c d) s = (attach_alias env a b c d s).1
run env (commit a b c d e f) s = (commit_asset env a b c d e f s).1
run env (annotate a b c d) s = (update_annotations env a b c d s).1
run env (resolve a b) s = (resolve_alias env a b s).1
run env (detach a b c) s = (detach_alias env a b c s).1
run env (detach_mutable a b c) s = (detach_mutable_alias env a b c s).1
run env (rebind a b c d) s = (rebind_alias env a b c d s).1
run env (expire a b) s = (expire_asset env a b s).1
run env (delete a b) s = (delete_asset env a b s).1
run env (set_policy a b c) s = (set_eviction_policy env a b c s).1
run env (limit_partition a b c d e f) s = (set_partition_quota env a b c d e f s).1
run env (limit_bucket a b c d) s = (set_bucket_quota a b c d s).1
run env (read a) s = (record_read env a s).1
run env (clean_up a b c d e) s = (lifecycle_update env a b c d e s).1
run env (set_ttl a b c) s = (set_asset_ttl env a b c s).1
run env (issue_capability a b c d e f) s = (record_capability_issue env a b c d e f s).1
run env tick s = (utcnow env s).1

-- What is relied on of the identifier library: a new identifier is in use nowhere.
abbrev pub IsAdmissible : Env → Call → Registry → Type 0
IsAdmissible env (reserve a b c d e f g h i) s = IsFresh env s
IsAdmissible env _ s = Unit

-- The states that calls reach from a new registry.
pub data Reachable (env : Env) (grace : ℕ) : Registry → Type 0 where
  start : Reachable env grace (registry_with grace)
  call :
      {s : Registry} (c : Call)
      → Reachable env grace s
      → IsAdmissible env c s
      → Reachable env grace (run env c s)

-- A state and one that calls reach from it.
pub data Runs (env : Env) (s : Registry) : Registry → Type 0 where
  stay : Runs env s s
  and_call :
      {t : Registry} (c : Call) → Runs env s t → IsAdmissible env c t → Runs env s (run env c t)

-- ===== src/Registry/Calls/Accounting.antt =====
-- The invariant of the registry over every sequence of calls.
use prototype_cache.Prelude.{ℕ, refl}
use prototype_cache.Prelude.Dict.{lookup, total, text_key, pair_key}
use prototype_cache.Env.{Env}
use prototype_cache.Registry.State.{Registry, registry_with}
use prototype_cache.Registry.Queries.{record_capability_issue}
use prototype_cache.Registry.Accounts.{IsWellFormed, Steps, here, next, quiet, Steps-IsWellFormed}
use prototype_cache.Registry.Steps.Retire.{expire_asset-Step, delete_asset-Step}
use prototype_cache.Registry.Steps.Commit.{commit_asset-Step, set_asset_ttl-Step}
use prototype_cache.Registry.Steps.Edit.{
  update_annotations-Step, set_eviction_policy-Step, record_read-Step, set_partition_quota-Step,
  set_bucket_quota-Step,
}
use prototype_cache.Registry.Steps.Cleanup.{lifecycle_update-Step}
use prototype_cache.Registry.Steps.Aliases.{
  attach_alias-Moves, resolve_alias-Moves, detach_alias-Moves, detach_mutable_alias-Moves,
  rebind_alias-Moves,
}
use prototype_cache.Registry.Steps.Reserve.{reserve_asset-Steps}
use prototype_cache.Registry.Calls.{
  Call, reserve, attach, commit, annotate, resolve, detach, detach_mutable, rebind, expire, delete,
  set_policy, limit_partition, limit_bucket, read, clean_up, set_ttl, issue_capability, tick, run,
  IsAdmissible, Reachable, start, call,
}

-- Every call changes the assets and the counters only by steps.
pub run-Steps :
    (env : Env) (c : Call) (s : Registry)
    → IsWellFormed s
    → IsAdmissible env c s
    → Steps s (run env c s)
unfolding run record_capability_issue
run-Steps env (reserve a b c d e f g h i) s w ok = reserve_asset-Steps env a b c d e f g h i s w ok
run-Steps env (attach a b c d) s w ok = (attach_alias-Moves env a b c d).at s w
run-Steps env (commit a b c d e f) s w ok = next here (commit_asset-Step env s w a b c d e f)
run-Steps env (annotate a b c d) s w ok = next here (update_annotations-Step env s a b c d)
run-Steps env (resolve a b) s w ok = (resolve_alias-Moves env a b "").at s w
run-Steps env (detach a b c) s w ok = (detach_alias-Moves env a b c).at s w
run-Steps env (detach_mutable a b c) s w ok = (detach_mutable_alias-Moves env a b c).at s w
run-Steps env (rebind a b c d) s w ok = (rebind_alias-Moves env a b d c).at s w
run-Steps env (expire a b) s w ok = next here (expire_asset-Step env a b s w)
run-Steps env (delete a b) s w ok = next here (delete_asset-Step env a b s w)
run-Steps env (set_policy a b c) s w ok = next here (set_eviction_policy-Step env s a b c)
run-Steps env (limit_partition a b c d e f) s w ok =
    next here (set_partition_quota-Step env s w a b c d e f)
run-Steps env (limit_bucket a b c d) s w ok = next here (set_bucket_quota-Step env s w a b c d)
run-Steps env (read a) s w ok = next here (record_read-Step env s a)
run-Steps env (clean_up a b c d e) s w ok = next here (lifecycle_update-Step env s w a c d b e)
run-Steps env (set_ttl a b c) s w ok = next here (set_asset_ttl-Step env s w a b c)
run-Steps env (issue_capability a b c d e f) s w ok = next here (quiet refl (refl, refl))
run-Steps env tick s w ok = next here (quiet refl (refl, refl))

new_registry-IsWellFormed : (grace : ℕ) → IsWellFormed (registry_with grace)
unfolding lookup total
new_registry-IsWellFormed grace = record {
  keyed = record { partition = λ b q pq h. cc; bucket = λ b bq h. cc };
  accounted = record { bytes = λ b q. refl; count = λ b q. refl; bucket = λ b. refl };
  filed = λ id a h. cc;
}

-- In every state that calls reach from a new registry, raising or not: each asset stands under its
-- own identifier and its names normalise, each counter stands under the names that it carries and
-- equals the sum over the available assets of its partition or bucket, and an asset whose bytes
-- are purged is deleted. Each reservation is assumed to get an identifier that is in use nowhere.
pub Reachable-IsWellFormed :
    (env : Env) (grace : ℕ) {s : Registry} → Reachable env grace s → IsWellFormed s
Reachable-IsWellFormed env grace start = new_registry-IsWellFormed grace
Reachable-IsWellFormed env grace (call {s} c r fresh) =
    let w = Reachable-IsWellFormed env grace r in Steps-IsWellFormed (run-Steps env c s w fresh) w

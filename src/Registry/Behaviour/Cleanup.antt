-- ===== src/Registry/Behaviour/Cleanup.antt =====
-- `lifecycle_update`: an asset that holds no quota is fenced and purged.
use prototype_cache.Prelude.{ℕ, String, Bool, true, false, ◌≡◌, some, arith, if◌then◌else◌}
use prototype_cache.Prelude.Dict.{lookup, insert, text_key}
use prototype_cache.Errors.{ok}
use prototype_cache.Models.{Asset, available, deleted, state_eq, asset_eq}
use prototype_cache.Env.{Env}
use prototype_cache.Retention.{validate_cleanup_transition}
use prototype_cache.Registry.State.{Registry}
use prototype_cache.Registry.Lifecycle.{lifecycle_update}

-- The version that a transition to `deleted` stores.
abbrev pub deleted_version : Asset → ℕ → Bool → Asset
deleted_version a now purged = record a {
  state = deleted;
  updated_at = now;
  payload_deleted_at = if purged then some now else a.payload_deleted_at;
}

pub lifecycle_update_deleted :
    (env : Env) (s : Registry) (a : Asset) (now : ℕ) (reason : String) (purged : Bool)
    → lookup a.asset_id s.assets ≡ some a
    → asset_eq a a ≡ true
    → state_eq a.state available ≡ false
    → validate_cleanup_transition a deleted purged ≡ ok tt
    → ((lifecycle_update env a deleted now reason purged s).0 ≡ ok (deleted_version a now purged))
      × ((lifecycle_update env a deleted now reason purged s).1.assets
          ≡ insert a.asset_id (deleted_version a now purged) s.assets)
unfolding lifecycle_update prototype_cache.Registry.Counters.release_quota
lifecycle_update_deleted env s a now reason purged found same idle valid =
    (ground arith, ground arith)

-- ===== src/Registry/State.antt =====
-- src/asset_store_core/registry.py: the state of `InMemoryAssetRegistry`, with the calls of the
-- clock and of the identifier library counted, and the private methods that read and write it.
use prototype_cache.Prelude.{ℕ, ◌+◌, String, Option, none, some, List, [], ◌∷◌, ◌++◌}
use prototype_cache.Prelude.Int.{ℤ, pos, negsuc}
use prototype_cache.Prelude.Dict.{Dict, lookup, insert, text_key}
use prototype_cache.Errors.{Result, ok, err, validation, asset_not_found}
use prototype_cache.Exec.{Exec, or_fail, modify}
use prototype_cache.Models.{Asset, AliasBinding, AuditEvent, PartitionQuota, BucketQuota, Detail}
use prototype_cache.Env.{Env}

pub record Registry : Type 0 where
  pub assets : Dict String Asset
  pub aliases : Dict String AliasBinding
  pub audit_events : List AuditEvent
  pub tombstones : Dict String ℕ
  pub partition_quotas : Dict (String × String) PartitionQuota
  pub bucket_quotas : Dict String BucketQuota
  -- a `timedelta`, in microseconds
  pub alias_grace : ℕ
  -- how often the clock has been read, and how many identifiers have been taken
  pub readings : ℕ
  pub minted : ℕ

-- seven days
abbrev pub default_grace : ℕ
default_grace = 604800000000

abbrev pub registry_with : ℕ → Registry
registry_with grace = record {
  assets = [];
  aliases = [];
  audit_events = [];
  tombstones = [];
  partition_quotas = [];
  bucket_quotas = [];
  alias_grace = grace;
  readings = 0;
  minted = 0;
}

-- `InMemoryAssetRegistry(alias_name_grace_period=...)`
unfoldable pub new_registry : Option ℤ → Result Registry
new_registry none = ok (registry_with default_grace)
new_registry (some (pos grace)) = ok (registry_with grace)
new_registry (some (negsuc n)) = err validation

-- `_get_asset`
abbrev pub get_asset : String → Exec Registry Asset
get_asset asset_id s = or_fail (lookup asset_id s.assets) asset_not_found s

-- `self._assets[asset_id] = updated`
abbrev pub store_asset : String → Asset → Exec Registry (Unit {0})
store_asset asset_id updated = modify λ s. record s { assets = insert asset_id updated s.assets }

module _ (env : Env) where
  abbrev pub utcnow : Exec Registry ℕ
  utcnow s = (ok (env.clock s.readings), record s { readings = s.readings + 1 })

  -- `new_asset_id`
  abbrev pub new_asset_id : Exec Registry String
  new_asset_id s = (ok (env.new_uuid s.minted), record s { minted = s.minted + 1 })

  -- `_audit`; the time stamp is the default of the event's field
  abbrev pub audit :
      String
      → String
      → String
      → String
      → Dict String Detail
      → Dict String Detail
      → Exec Registry (Unit {0})
  audit action target caller_service_id outcome before after s = (
    ok tt,
    record s {
      audit_events =
          s.audit_events
          ++ record {
            action = action;
            target = target;
            caller_service_id = caller_service_id;
            outcome = outcome;
            before = before;
            after = after;
            ts = env.clock s.readings;
          }
            ∷ [];
      readings = s.readings + 1;
    },
  )

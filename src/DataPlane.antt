-- ===== src/DataPlane.antt =====
-- The objects on which the guard (src/asset_store_core/guard.py) and the maintenance worker
-- (src/asset_store_core/lifecycle.py) act: the registry, the object store and the ledger of used
-- capabilities. One clock serves them all; its readings are counted in the registry.
pub mod Visits
use prototype_cache.Prelude.{ℕ}
use prototype_cache.Errors.{Result}
use prototype_cache.Exec.{Exec}
use prototype_cache.Env.{Env}
use prototype_cache.Registry.State.{Registry, utcnow}
use prototype_cache.Capabilities.Ledger.{SingleUseLedger, prune_expired}

pub record DataPlane (S : Type 0) : Type 0 where
  pub registry : Registry
  pub store : S
  pub ledger : SingleUseLedger

module _ {S A : Type 0} where
  abbrev pub on_registry : Exec Registry A → Exec (DataPlane S) A
  on_registry m g = let r = m g.registry in (r.0, record g { registry = r.1 })

  abbrev pub on_store : Exec S A → Exec (DataPlane S) A
  on_store m g = let r = m g.store in (r.0, record g { store = r.1 })

  abbrev pub on_ledger : Exec SingleUseLedger A → Exec (DataPlane S) A
  on_ledger m g = let r = m g.ledger in (r.0, record g { ledger = r.1 })

module _ (env : Env) {S : Type 0} where
  abbrev pub read_clock : Exec (DataPlane S) ℕ
  read_clock = on_registry (utcnow env)

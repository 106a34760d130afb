-- ===== src/Guard/Visits.antt =====
-- What every operation of the guard begins with changes the registry by its calls only.
use prototype_cache.Prelude.{String}
use prototype_cache.Prelude.Dict.{text_key}
use prototype_cache.Exec.{lift}
use prototype_cache.Env.{Env}
use prototype_cache.ObjectStore.Backend.{ObjectStoreBackend}
use prototype_cache.Capabilities.Scope.{Capability, Operation, require}
use prototype_cache.Capabilities.Ledger.{assert_unused}
use prototype_cache.ServicePolicy.{assert_service_bucket_allowed}
use prototype_cache.DataPlane.{on_ledger, read_clock}
use prototype_cache.DataPlane.Visits.{
  Visits, Visits-bind, Visits-pure, Visits-lift, Visits-on_ledger, Visits-read_clock,
}
use prototype_cache.Guard.Alias.{parse_alias}
use prototype_cache.Guard.Access.{authorize}

module _ (env : Env) {S : Type 0} (backend : ObjectStoreBackend S) where
  -- Before the reservation or the resolution only the clock is read.
  pub authorize-Visits :
      (operation : Operation) (cap : Capability) (alias : String)
      → Visits env (authorize env backend operation cap alias)
  unfolding authorize
  authorize-Visits operation cap alias =
      Visits-bind env (lift (parse_alias alias)) _ (Visits-lift env (parse_alias alias)) λ parsed.
        Visits-bind env (read_clock env) _ (Visits-read_clock env) λ required_at.
          Visits-bind env (lift (require cap operation parsed.qualified required_at)) _
            (Visits-lift env _)
            λ u. Visits-bind env (read_clock env) _ (Visits-read_clock env) λ checked_at.
              Visits-bind env (on_ledger (assert_unused cap checked_at)) _ (Visits-on_ledger env _)
                λ v.
                  Visits-bind env
                    (lift
                      (assert_service_bucket_allowed cap.caller_service_id parsed.space operation))
                    _ (Visits-lift env _) λ w. Visits-pure env parsed

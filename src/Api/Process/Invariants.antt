-- ===== src/Api/Process/Invariants.antt =====
-- What holds of the process, whatever events it has seen.
use prototype_cache.Prelude.{
  true, ℕ, ◌≤◌, String, ◌≡◌, subst, arith, some, [], length, ap, ◌∙◌, ◌++◌, sym,
}
use prototype_cache.Prelude.Dict.{lookup, text_key}
use prototype_cache.Prelude.Int.{ℤ, pos, positive?}
use prototype_cache.Errors.{ok, or_raise, validation, value_error, >>=-ok}
use prototype_cache.Capabilities.Scope.{Capability, Operation, allows, is_same_path_or_child}
use prototype_cache.Capabilities.Scope.Segments.{segments, is_same_path_or_child_iff}
use prototype_cache.ServicePolicy.{assert_service_bucket_allowed}
use prototype_cache.Paths.{normalize_space}
use prototype_cache.Registry.Names.{first_segment}
use prototype_cache.Prelude.Text.{strip, is_slash}
use prototype_cache.Prelude.Text.Segments.{split_head}
use prototype_cache.Api.Mint.{bucket_of_scope}
use prototype_cache.Capabilities.Store.{CapabilityStore, new_store}
use prototype_cache.Admission.{WorkAdmission, new_gate, positive_limit_from_env}
use prototype_cache.IssuanceRate.{new_limiter}
use prototype_cache.Capabilities.Store.Held.{Holds-lookup}
use prototype_cache.Registry.State.{Registry}
use prototype_cache.Api.State.{Service, App, Settings, create_app, identities}
use prototype_cache.Api.Serving.{IsVouched, IsSound}
use prototype_cache.Api.Process.{Process, Lives, started, and_event, advance}
use prototype_cache.Api.Process.Advance.{Advanced, Advanced-refl, Advanced-trans, advance-Advanced}

-- What is allowed is of the capability's operation, and below its scope.
allows_lem :
    (cap : Capability) (operation : Operation) (path : String) (now : ℕ)
    → allows cap operation path now ≡ true
    → (operation ≡ cap.operation) × (is_same_path_or_child path cap.scope_prefix ≡ true)
unfolding allows
allows_lem cap operation path now h = (ground arith, ground arith)

-- A path below a scope has the scope's bucket.
bucket_of_scope-same :
    (path scope : String)
    → is_same_path_or_child path scope ≡ true
    → bucket_of_scope path ≡ bucket_of_scope scope
unfolding bucket_of_scope segments
bucket_of_scope-same path scope h =
    let (rest, begins) = (is_same_path_or_child_iff path scope).0 h in
    let (bucket, further, named) = split_head (strip is_slash scope) in
    ap (λ xs. normalize_space (first_segment xs)) begins
    ∙ ap (λ xs. normalize_space (first_segment (xs ++ rest))) named
    ∙ sym (ap (λ xs. normalize_space (first_segment xs)) named)

module _ {S : Type 0} (service : Service S) where
  Lives-Advanced :
      {begun : App S} {p : Process S}
      → Lives service begun p
      → Advanced service (record { app = begun; in_flight = [] }) p
  Lives-Advanced {begun} started = Advanced-refl service _
  Lives-Advanced {begun} (and_event {p} e h) =
      Advanced-trans service _ p (advance service e p) (Lives-Advanced h)
        (advance-Advanced service e p)

  -- The process is started with these settings, over this registry and this store.
  abbrev pub Starts : Settings → Registry → S → App S → Type 0
  Starts settings registry store begun =
      create_app service.floats service.credentials settings registry store
      ≡ ok (service.max_upload_bytes, begun)

  new_store_empty : (asked : ℤ) (s : CapabilityStore) → new_store asked ≡ ok s → s.capabilities ≡ []
  unfolding new_store
  new_store_empty asked s h = ground arith

  new_gate_idle : (asked : ℤ) (g : WorkAdmission) → new_gate asked ≡ ok g → g.active ≡ 0
  unfolding new_gate
  new_gate_idle asked g h = ground arith

  -- What a new process begins with.
  create_app_lem :
      (settings : Settings) (registry : Registry) (store : S) (begun : App S)
      → Starts settings registry store begun
      → (begun.plane.registry ≡ registry)
        × (begun.capabilities.capabilities ≡ [])
        × (begun.uploads.active ≡ 0)
  unfolding create_app
  create_app_lem settings registry store begun h =
      let (upload_limit, e1, h1) = >>=-ok (or_raise settings.max_upload_bytes value_error) _ h in
      let (max_bytes, e2, h2) = >>=-ok (or_raise (positive? upload_limit) validation) _ h1 in
      let (max_capabilities, e3, h3) =
        >>=-ok (or_raise settings.max_capabilities validation) _ h2 in
      let (capabilities, made, h4) = >>=-ok (new_store max_capabilities) _ h3 in
      let (per_minute, e5, h5) = >>=-ok (positive_limit_from_env settings.rate_per_minute) _ h4 in
      let (burst, e6, h6) = >>=-ok (positive_limit_from_env settings.rate_burst) _ h5 in
      let (issuance_rate, e7, h7) =
        >>=-ok
          (new_limiter service.floats (identities service.credentials.secrets) (pos per_minute)
            (pos burst))
          _ h6 in
      let (limit, e8, h8) = >>=-ok (positive_limit_from_env settings.max_inflight_uploads) _ h7 in
      let (uploads, opened, h9) = >>=-ok (new_gate (pos limit)) _ h8 in
      let empty = new_store_empty max_capabilities capabilities made in
      let idle = new_gate_idle (pos limit) uploads opened in
      (ground arith, ground arith, ground arith)

  module _ (settings : Settings) (registry : Registry) (store : S) (begun : App S)
      (p : Process S) where
    -- Whatever requests come, however uploads overlap, and whatever other threads leave of the
    -- registry, the object store and the ledger between them, a process never stores more capabilities
    -- than it was configured for, and each that it stores was granted to a service with a configured
    -- secret, for a bucket on which that service may do what the capability is for.
    pub Lives-IsSound :
        Starts settings registry store begun
        → Lives service begun p
        → (p.app.capabilities.max_capabilities ≡ begun.capabilities.max_capabilities)
          × IsSound service p.app.capabilities
    Lives-IsSound h lives =
        let (same, empty, idle) = create_app_lem settings registry store begun h in
        let advanced = Lives-Advanced lives in
        (advanced.capacity, advanced.held (rw empty (omega arith), rw empty tt))

    -- Whatever a stored capability allows is an operation on a path of a bucket on which the service
    -- that it was granted to may do that operation; and this service has a configured secret.
    pub Lives-allows :
        (id : String) (cap : Capability) (operation : Operation) (path : String) (now : ℕ)
        → Starts settings registry store begun
        → Lives service begun p
        → lookup id p.app.capabilities.capabilities ≡ some cap
        → allows cap operation path now ≡ true
        → (bucket : String) × (bucket_of_scope path ≡ ok bucket)
          × (assert_service_bucket_allowed cap.caller_service_id bucket operation ≡ ok tt)
          × (secret : String) × (lookup cap.caller_service_id service.credentials.secrets
              ≡ some secret)
    Lives-allows id cap operation path now h lives found allowed =
        let (capacity, (within, held)) = Lives-IsSound h lives in
        let vouched =
          Holds-lookup (IsVouched service) id cap p.app.capabilities.capabilities held found in
        let (same, covered) = allows_lem cap operation path now allowed in
        (
          vouched.bucket,
          bucket_of_scope-same path cap.scope_prefix covered ∙ vouched.named,
          rw same vouched.allowed,
          vouched.secret,
          vouched.known,
        )

    -- The gate of a process counts exactly the uploads that hold a lease, however they overlap, end or
    -- fail, whatever other threads leave of the registry, the object store and the ledger between
    -- them, and they are never more than the process was configured for.
    pub Lives-IsCounted :
        Starts settings registry store begun
        → Lives service begun p
        → (p.app.uploads.active ≡ length p.in_flight) × (length p.in_flight ≤ begun.uploads.limit)
    Lives-IsCounted h lives =
        let (same, empty, idle) = create_app_lem settings registry store begun h in
        let advanced = Lives-Advanced lives in
        let (counted, most) = advanced.counted (idle, omega arith) in
        (counted, subst (λ n. length p.in_flight ≤ n) advanced.limit most)

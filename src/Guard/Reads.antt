-- ===== src/Guard/Reads.antt =====
-- What the guard gives to a reader: bytes and presigned URLs.
use prototype_cache.Prelude.{
  ℕ, ◌+◌, ◌*◌, ◌≤◌, ◌<◌, String, false, ◌≡◌, ◌⊎◌, refl, sym, ap, subst, ◌∙◌, Option, none, some,
  List, arith, inl, inr, leb,
}
use prototype_cache.Prelude.Int.{ℤ, pos, positive?}
use prototype_cache.Errors.{Result-cases, ok, capability_denied, validation}
use prototype_cache.Exec.{resume-ok, resume-at, raise_when, or_fail, lift, pure, ◌>>=◌}
use prototype_cache.Env.{Env}
use prototype_cache.Retention.{second}
use prototype_cache.Storage.{for_asset}
use prototype_cache.ObjectStore.Backend.{ObjectStoreBackend}
use prototype_cache.Capabilities.Scope.{Capability, Operation, read}
use prototype_cache.Registry.State.{Registry}
use prototype_cache.Registry.Lifecycle.{record_read}
use prototype_cache.Registry.Aliases.{resolve_alias}
use prototype_cache.Registry.Behaviour.Resolve.{IsServed, resolve_alias_iff, resolve_alias-readings}
use prototype_cache.DataPlane.{DataPlane, on_registry, on_store, read_clock}
use prototype_cache.Guard.Alias.{ParsedAlias}
use prototype_cache.Guard.Access.{
  GuardedRead, PresignedRead, authorize, resolve_for_read, read_bytes, within_lifetime, mint_url,
  presign_read, lesser, seconds_left, max_presign_ttl_seconds,
}
use prototype_cache.Guard.Authorized.{IsAuthorized, authorize_iff}

-- The state after the checks: two readings of the clock, and the ledger pruned.
abbrev checked : Registry → Registry
checked s = record s { readings = s.readings + 1 + 1 }

module _ (env : Env) {S : Type 0} (backend : ObjectStoreBackend S) where
  authorize-state :
      (operation : Operation) (cap : Capability) (alias : String) (g : DataPlane S)
      (parsed : ParsedAlias)
      → (authorize env backend operation cap alias g).0 ≡ ok parsed
      → let after = (authorize env backend operation cap alias g).1 in
        (after.registry ≡ checked g.registry) × (after.store ≡ g.store)
  unfolding authorize
  authorize-state operation cap alias g parsed h = (ground arith, ground arith)

  -- What a read has checked and found.
  pub record Grants (g : DataPlane S) (cap : Capability) (alias : String) (found : GuardedRead)
      : Type 0 where
    pub parsed : ParsedAlias
    pub authorized : IsAuthorized env g read cap alias parsed
    pub served : IsServed env (checked g.registry) parsed.space parsed.relative found.asset
    pub place :
        for_asset found.asset.space found.asset.partition_id found.asset.asset_id
        ≡ ok found.location

  -- the rest of `resolve_for_read`, after the checks
  resolved-fields :
      (parsed : ParsedAlias) (g : DataPlane S) (found : GuardedRead)
      → ((on_registry (resolve_alias env parsed.space parsed.relative) >>= (λ asset.
            lift (for_asset asset.space asset.partition_id asset.asset_id)
            >>= (λ location. pure (record { asset = asset; location = location }))))
          g).0
        ≡ ok found
      → ((resolve_alias env parsed.space parsed.relative g.registry).0 ≡ ok found.asset)
        × (for_asset found.asset.space found.asset.partition_id found.asset.asset_id
            ≡ ok found.location)
  resolved-fields parsed g found h =
      let (asset, served, rest) =
        resume-ok (on_registry (resolve_alias env parsed.space parsed.relative) g) _ found h in
      elim (Result-cases (for_asset asset.space asset.partition_id asset.asset_id)) [
        | inr (e, bad) ↦ absurd (ground arith)
        | inl (location, good) ↦
            let same : found ≡ record { asset = asset; location = location } = ground arith in
            rw same (served, good)
      ]

  resolve_for_read-Grants :
      (cap : Capability) (alias : String) (g : DataPlane S) (found : GuardedRead)
      → (resolve_for_read env backend cap alias g).0 ≡ ok found
      → Grants g cap alias found
  unfolding resolve_for_read
  resolve_for_read-Grants cap alias g found h =
      let (parsed, passed, rest) = resume-ok (authorize env backend read cap alias g) _ found h in
      let (registry, store) = authorize-state read cap alias g parsed passed in
      let (served, place) =
        resolved-fields parsed (authorize env backend read cap alias g).1 found rest in
      record {
        parsed = parsed;
        authorized = (authorize_iff env backend read cap alias g parsed).0 passed;
        served =
            (resolve_alias_iff env parsed.space parsed.relative (checked g.registry) found.asset).0
              (subst (λ s. (resolve_alias env parsed.space parsed.relative s).0 ≡ ok found.asset)
                registry served);
        place = place;
      }

  resolve_for_read-store :
      (cap : Capability) (alias : String) (g : DataPlane S)
      → (resolve_for_read env backend cap alias g).1.store ≡ g.store
  unfolding resolve_for_read authorize
  resolve_for_read-store cap alias g = ground arith

  -- The clock is read twice to authorize, and once to resolve.
  resolve_for_read-readings :
      (cap : Capability) (alias : String) (g : DataPlane S) (found : GuardedRead)
      → (resolve_for_read env backend cap alias g).0 ≡ ok found
      → (resolve_for_read env backend cap alias g).1.registry.readings ≡ g.registry.readings + 3
  unfolding resolve_for_read
  resolve_for_read-readings cap alias g found h =
      let (parsed, passed, e1) = resume-at (authorize env backend read cap alias g) _ found h in
      let h1 = ap (λ x. x.0) (sym e1) ∙ h in
      let (registry, store) = authorize-state read cap alias g parsed passed in
      let g1 = (authorize env backend read cap alias g).1 in
      let (asset, served, e2) =
        resume-at (on_registry (resolve_alias env parsed.space parsed.relative) g1) _ found h1 in
      let counted =
        resolve_alias-readings env parsed.space parsed.relative g1.registry asset served in
      rw (e1, e2) (ground (arith, registry, counted))

  -- Bytes that the guard returns are those that the object store had at the location of the asset;
  -- the capability is for reading, has not expired, covers the alias and is not used up, its service
  -- may read the bucket, and the alias is bound to the asset, which is available and not past its
  -- deadline.
  pub read_bytes-Grants :
      (cap : Capability) (alias : String) (g : DataPlane S) (content : List ℕ)
      → (read_bytes env backend cap alias g).0 ≡ ok content
      → (found : GuardedRead) × Grants g cap alias found
        × ((backend.get found.location g.store).0 ≡ ok content)
  unfolding read_bytes
  read_bytes-Grants cap alias g content h =
      let (found, resolved, rest) =
        resume-ok (resolve_for_read env backend cap alias g) _ content h in
      let g' = (resolve_for_read env backend cap alias g).1 in
      let (bytes, got, rest') =
        resume-ok (on_store (backend.get found.location) g') _ content rest in
      let same : bytes ≡ content = ground arith in
      (
        found,
        resolve_for_read-Grants cap alias g found resolved,
        subst (λ s. (backend.get found.location s).0 ≡ ok bytes)
              (resolve_for_read-store cap alias g) got
            ∙ ap ok same,
      )

  -- A URL of `ttl` seconds that is made at the `k`-th reading of the clock ends by the deadline `t`.
  abbrev EndsBy : ℕ → ℕ → ℕ → Type 0
  EndsBy k ttl t = env.clock k + ttl * second ≤ t

  within_lifetime-bounds :
      (deadline : Option ℕ) (bound ttl : ℕ) (g : DataPlane S)
      → 0 < bound
      → (within_lifetime env backend deadline bound g).0 ≡ ok ttl
      → (0 < ttl)
        × (ttl ≤ bound)
        × ((deadline ≡ none) ⊎ ((t : ℕ) × (deadline ≡ some t) × EndsBy g.registry.readings ttl t))
  unfolding within_lifetime
  within_lifetime-bounds none bound ttl g h k = (ground arith, ground arith, inl refl)
  within_lifetime-bounds (some t) bound ttl g h k =
      (ground arith, ground arith, inr (t, refl, ground arith))

  -- A URL of `ttl` seconds lives at most an hour and as long as was asked for; from the `k`-th reading
  -- of the clock on no longer than the capability, and from the next one on no longer than the asset.
  pub record IsBounded (k : ℕ) (cap : Capability) (asked : ℕ) (found : GuardedRead) (ttl : ℕ)
      : Type 0 where
    pub positive : 0 < ttl
    pub capped : ttl ≤ max_presign_ttl_seconds
    pub requested : ttl ≤ asked
    pub grant : EndsBy k ttl cap.expires_at
    pub lifetime :
        (found.asset.expires_at ≡ none)
        ⊎ ((t : ℕ) × (found.asset.expires_at ≡ some t) × EndsBy (k + 1) ttl t)

  mint_url-bounds :
      (cap : Capability) (asked : ℕ) (found : GuardedRead) (g : DataPlane S) (p : PresignedRead)
      → 0 < asked
      → (mint_url env backend cap asked found g).0 ≡ ok p
      → (p.asset ≡ found.asset) × IsBounded g.registry.readings cap asked found p.expires_in
  unfolding mint_url
  mint_url-bounds cap asked found g p h k =
      let now = env.clock g.registry.readings in
      let g1 = (read_clock env g).1 in
      let remaining = seconds_left cap.expires_at now in
      let bound = lesser (lesser asked max_presign_ttl_seconds) remaining in
      let (u, passed, rest1) =
        resume-ok (raise_when (leb remaining 0) capability_denied g1) _ p k in
      let g2 = (raise_when (leb remaining 0) capability_denied g1).1 in
      let left : 0 < remaining = ground arith in
      let later : g2.registry.readings ≡ g.registry.readings + 1 = ground arith in
      let (ttl, given, rest2) =
        resume-ok (within_lifetime env backend found.asset.expires_at bound g2) _ p rest1 in
      let g3 = (within_lifetime env backend found.asset.expires_at bound g2).1 in
      let (url, signed, rest3) =
        resume-ok (on_store (backend.presign found.location ttl) g3) _ p rest2 in
      let g4 = (on_store (backend.presign found.location ttl) g3).1 in
      let (v, recorded, rest4) =
        resume-ok (on_registry (record_read env found.asset.asset_id) g4) _ p rest3 in
      let (positive, capped, deadline) =
        within_lifetime-bounds found.asset.expires_at bound ttl g2 (ground arith) given in
      let asset : found.asset ≡ p.asset = ground arith in
      let seconds : ttl ≡ p.expires_in = ground arith in
      let by_grant : now + ttl * second ≤ cap.expires_at = ground arith in
      (
        sym asset,
        subst (λ x. IsBounded g.registry.readings cap asked found x) seconds
            (record {
              positive = positive;
              capped = ground arith;
              requested = ground arith;
              grant = by_grant;
              lifetime =
                  subst
                    (λ n.
                      (found.asset.expires_at ≡ none)
                      ⊎ ((t : ℕ) × (found.asset.expires_at ≡ some t) × EndsBy n ttl t))
                    later deadline;
            }),
      )

  -- A presigned URL is given only for a capability that is not single-use, and only where a read
  -- would be: the capability is for reading, has not expired and covers the alias, its service may
  -- read the bucket, and the alias is bound to the asset, which is available and not past its
  -- deadline. The URL lives at most an hour and at most as long as was asked for. The clock is read
  -- three times to authorize and to resolve; from the fourth reading on the URL lives no longer than
  -- the capability, and from the fifth on no longer than the asset.
  pub presign_read-IsBounded :
      (cap : Capability) (alias : String) (expires_in : ℤ) (g : DataPlane S) (p : PresignedRead)
      → (presign_read env backend cap alias expires_in g).0 ≡ ok p
      → (cap.single_use ≡ false)
        × (asked : ℕ) × (expires_in ≡ pos asked)
        × (found : GuardedRead) × Grants g cap alias found
        × (p.asset ≡ found.asset)
        × IsBounded (g.registry.readings + 3) cap asked found p.expires_in
  unfolding presign_read
  presign_read-IsBounded cap alias expires_in g p h =
      let (u, reusable, rest1) = resume-ok (raise_when cap.single_use capability_denied g) _ p h in
      let g1 = (raise_when cap.single_use capability_denied g).1 in
      let (asked, valid, rest2) =
        resume-ok (or_fail (positive? expires_in) validation g1) _ p rest1 in
      let g2 = (or_fail (positive? expires_in) validation g1).1 in
      let (found, resolved, rest3) =
        resume-ok (resolve_for_read env backend cap alias g2) _ p rest2 in
      let same : g2 ≡ g = ground arith in
      let resolved' : (resolve_for_read env backend cap alias g).0 ≡ ok found =
        subst (λ x. (resolve_for_read env backend cap alias x).0 ≡ ok found) same resolved in
      let counted : (resolve_for_read env backend cap alias g2).1.registry.readings
          ≡ g.registry.readings + 3 =
        rw same (resolve_for_read-readings cap alias g found resolved') in
      let (asset, bounded) = mint_url-bounds cap asked found _ p (ground arith) rest3 in
      (
        ground arith,
        asked,
        ground arith,
        found,
        resolve_for_read-Grants cap alias g found resolved',
        asset,
        subst (λ k. IsBounded k cap asked found p.expires_in) counted bounded,
      )

-- ===== src/Registry/Steps/Reserve.antt =====
-- `reserve_asset`: a new pending asset under an identifier that was not in use.
use prototype_cache.Prelude.{ℕ, ◌+◌, String, ◌≡◌, refl, Bool, [], ◌∷◌, Option, none, some, List}
use prototype_cache.Prelude.Int.{ℤ}
use prototype_cache.Prelude.Dict.{Dict, lookup, insert, text_key}
use prototype_cache.Errors.{Result, ok, err, >>=-ok}
use prototype_cache.Exec.{Exec, resume, pure, lift, ◌>>=◌, ◌>>◌}
use prototype_cache.Models.{Asset, text, flag, number, pending, EvictionPolicy, AliasBinding}
use prototype_cache.Env.{Env}
use prototype_cache.Paths.{normalize_space, normalize_partition_id}
use prototype_cache.Paths.Normal.{normalize_space_idem}
use prototype_cache.Storage.{build_storage_key}
use prototype_cache.Retention.{expiry_for}
use prototype_cache.Registry.State.{Registry, store_asset, new_asset_id, utcnow, audit}
use prototype_cache.Registry.Names.{
  AliasSpecs, normalize_alias_specs, alias_under_partition, binding_key,
}
use prototype_cache.Registry.Accounts.{
  HasNames, IsWellFormed, Step, quiet, reserve, Steps, here, next, Steps-trans, Step-IsWellFormed,
}
use prototype_cache.Registry.Aliases.{bind_names, audit_reservation, reserve_asset, store_binding}
use prototype_cache.Registry.Steps.Prepared.{
  Prepares, Prepares-utcnow, Prepares-require_names, Prepares-qualified_names,
  Prepares-check_reservation,
}
use prototype_cache.Registry.Steps.Moves.{
  Moves, Moves-bind, Moves-lift, Moves-pure, Moves-audit, Moves-store_binding,
}

-- An action that moves by steps from a state with the property `P`.
record MovesIf {A : Type 0} (P : Registry → Type 0) (m : Exec Registry A) : Type 0 where
  at : (s : Registry) → IsWellFormed s → P s → Steps s (m s).1

abbrev IsUnused : String → Registry → Type 0
IsUnused id s = lookup id s.assets ≡ none

-- The next identifier that the library gives is in use nowhere.
abbrev pub IsFresh : Env → Registry → Type 0
IsFresh env s = IsUnused (env.new_uuid s.minted) s

module _ {A B : Type 0} where
  resume-MovesIf :
      (P : Registry → Type 0) (s : Registry) (r : Result A) (t : Registry) (f : A → Exec Registry B)
      → IsWellFormed s
      → Step s t
      → P t
      → ((a : A) → MovesIf P (f a))
      → Steps s (resume (r, t) f).1
  resume-MovesIf P s (ok a) t f w h p k =
      Steps-trans (next here h) ((k a).at t (Step-IsWellFormed h w) p)
  resume-MovesIf P s (err e) t f w h p k = next here h

module _ (env : Env) {A B : Type 0} where
  MovesIf-IsFresh :
      (m : Exec Registry A) (f : A → Exec Registry B)
      → Prepares m
      → ((a : A) → MovesIf (IsFresh env) (f a))
      → MovesIf (IsFresh env) (m >>= f)
  MovesIf-IsFresh m f h k = record {
    at = λ s w fresh.
        let e = h.at s in
        let (r, t) = m s in
        resume-MovesIf (IsFresh env) s r t f w (quiet e.0 (e.1, e.2)) (rw (e.0, e.3) fresh) k;
  }

module _ (id : String) {A B : Type 0} where
  MovesIf-IsUnused :
      (m : Exec Registry A) (f : A → Exec Registry B)
      → Prepares m
      → ((a : A) → MovesIf (IsUnused id) (f a))
      → MovesIf (IsUnused id) (m >>= f)
  MovesIf-IsUnused m f h k = record {
    at = λ s w unused.
        let e = h.at s in
        let (r, t) = m s in
        resume-MovesIf (IsUnused id) s r t f w (quiet e.0 (e.1, e.2)) (rw e.0 unused) k;
  }

-- What a pure function gave is known to what follows.
MovesIf-lift :
    (P : Registry → Type 0) {A B : Type 0} (r : Result A) (f : A → Exec Registry B)
    → ((a : A) → r ≡ ok a → MovesIf P (f a))
    → MovesIf P (lift r >>= f)
MovesIf-lift P (ok a) f k = record { at = (k a refl).at }
MovesIf-lift P (err e) f k = record { at = λ s w p. here }

bind_names-Moves :
    (env : Env) (space partition id : String) (now : ℕ) (owner : String) (specs : Dict String Bool)
    → Moves (bind_names env space partition id now owner specs)
unfolding bind_names
bind_names-Moves env space partition id now owner [] = Moves-pure tt
bind_names-Moves env space partition id now owner ((alias, mutable) ∷ rest) =
    Moves-bind _ _ (Moves-lift (alias_under_partition partition alias)) λ scoped.
      let binding : AliasBinding = record {
        space = space;
        alias = scoped;
        asset_id = some id;
        mutable = mutable;
        previous_asset_id = none;
        created_at = now;
        updated_at = now;
        created_by_service_id = owner;
      } in
      let details = ("asset_id", text id) ∷ ("mutable", flag mutable) ∷ [] in
      Moves-bind _ _ (Moves-lift (binding_key binding)) λ key.
        Moves-bind (store_binding key binding) _ (Moves-store_binding key binding) λ _.
          Moves-bind (audit env "alias.create" key owner "success" [] details) _
            (Moves-audit env "alias.create" key owner "success" [] details)
            λ _. bind_names-Moves env space partition id now owner rest

audit_reservation-Moves :
    (env : Env) (id owner : String) (bytes : Option ℕ)
    → Moves (audit_reservation env id owner bytes)
unfolding audit_reservation
audit_reservation-Moves env id owner none = Moves-pure tt
audit_reservation-Moves env id owner (some n) =
    Moves-audit env "asset.upload_reserve" id owner "success" []
      (("reserved_bytes", number (some n)) ∷ [])

-- The new asset is written, and what follows moves by steps.
MovesIf-store :
    (id : String) (b : Asset) {B : Type 0} (m : Exec Registry B)
    → b.asset_id ≡ id
    → b.state ≡ pending
    → b.payload_deleted_at ≡ none
    → HasNames b
    → Moves m
    → MovesIf (IsUnused id) (store_asset id b >> m)
MovesIf-store id b m filed waits unpurged names h = record {
  at = λ s w unused.
      let t : Registry = record s { assets = insert id b s.assets } in
      let st : Step s t = reserve id b unused filed waits unpurged names refl (refl, refl) in
      Steps-trans (next here st) (h.at t (Step-IsWellFormed st w));
}

-- A partition that the storage key was built from normalises.
build_storage_key-names :
    (space b partition id key : String)
    → normalize_space space ≡ ok b
    → build_storage_key partition id ≡ ok key
    → (q : String) × (normalize_space b ≡ ok b) × (normalize_partition_id partition ≡ ok q)
unfolding build_storage_key
build_storage_key-names space b partition id key hb h =
    let (q, hq, rest) = >>=-ok (normalize_partition_id partition) _ h in
    (q, normalize_space_idem space b hb, hq)

-- A fresh identifier is taken.
MovesIf-mint :
    (env : Env) {B : Type 0} (f : String → Exec Registry B)
    → ((id : String) → MovesIf (IsUnused id) (f id))
    → MovesIf (IsFresh env) (new_asset_id env >>= f)
MovesIf-mint env f k = record {
  at = λ s w fresh.
      let t : Registry = record s { minted = s.minted + 1 } in
      let st : Step s t = quiet refl (refl, refl) in
      Steps-trans (next here st) ((k (env.new_uuid s.minted)).at t (Step-IsWellFormed st w) fresh);
}

module _ (env : Env) (space partition_id : String) (aliases : AliasSpecs) (owner : String)
    (mime : Option String) (annotations : Dict String String) (policy : EvictionPolicy)
    (ttl : Option ℤ) (bytes : Option ℤ) where
  abbrev new_asset :
      String → String → Option ℕ → String → ℕ → List String → String → Option ℕ → Asset
  new_asset b q reserved id now qualified key deadline = record {
    asset_id = id;
    space = b;
    partition_id = q;
    storage_key = key;
    state = pending;
    aliases = qualified;
    mime = mime;
    size_bytes = none;
    reserved_bytes = reserved;
    checksum_algo = "sha256";
    checksum = none;
    annotations = annotations;
    created_at = now;
    updated_at = now;
    expires_at = deadline;
    expired_at = none;
    last_read_at = none;
    read_count = 0;
    payload_deleted_at = none;
    owner_service_id = owner;
    eviction_policy = policy;
  }

  -- what `reserve_asset` does once every check has passed
  abbrev publish :
      String
      → String
      → Dict String Bool
      → Option ℕ
      → String
      → ℕ
      → List String
      → String
      → Option ℕ
      → Exec Registry Asset
  publish b q specs reserved id now qualified key deadline =
      let asset = new_asset b q reserved id now qualified key deadline in
      store_asset id asset
      >> (bind_names env b q id now owner specs
          >> (audit_reservation env id owner reserved >> pure asset))

  reserve_asset-MovesIf :
      MovesIf
        (IsFresh env)
        (reserve_asset env space partition_id aliases owner mime annotations policy ttl bytes)
  unfolding reserve_asset
  reserve_asset-MovesIf = MovesIf-lift _ (normalize_space space) _ λ b hb.
      MovesIf-lift _ (normalize_partition_id partition_id) _ λ q hq.
        MovesIf-lift _ (normalize_alias_specs aliases) _ λ specs _.
          MovesIf-IsFresh env _ _ (Prepares-require_names env b q specs) λ _.
            MovesIf-IsFresh env _ _ (Prepares-check_reservation env b q bytes) λ reserved.
              MovesIf-mint env _ λ id.
                MovesIf-IsUnused id (utcnow env) _ (Prepares-utcnow env) λ now.
                  MovesIf-IsUnused id _ _ (Prepares-qualified_names env b q specs []) λ qualified.
                    MovesIf-lift (IsUnused id) (build_storage_key q id)
                      (λ key.
                        lift (expiry_for env b ttl now)
                        >>= publish b q specs reserved id now qualified key)
                      λ key hk.
                        MovesIf-lift (IsUnused id) (expiry_for env b ttl now)
                          (publish b q specs reserved id now qualified key)
                          λ deadline _.
                            let asset = new_asset b q reserved id now qualified key deadline in
                            let names = build_storage_key-names space b q id key hb hk in
                            MovesIf-store id asset
                              (bind_names env b q id now owner specs
                                >> (audit_reservation env id owner reserved >> pure asset))
                              refl refl refl
                              (record { b = b; q = names.0; bucket = names.1; partition = names.2 })
                              (Moves-bind _ _ (bind_names-Moves env b q id now owner specs) λ _.
                                Moves-bind _ _ (audit_reservation-Moves env id owner reserved)
                                  λ _. Moves-pure asset)

  pub reserve_asset-Steps :
      (s : Registry)
      → IsWellFormed s
      → IsFresh env s
      → Steps s
          (reserve_asset env space partition_id aliases owner mime annotations policy ttl bytes s).1
  reserve_asset-Steps s w fresh = reserve_asset-MovesIf.at s w fresh

-- ===== src/Api/Refusals.antt =====
-- Who may be served.
use prototype_cache.Prelude.{
  String, true, false, not, ◌||◌, ◌⊎◌, ◌≡◌, refl, arith, some, inl, inr, Bool-cases, Option-cases,
  str_eq, eq_iff, ap, subst,
}
use prototype_cache.Prelude.Dict.{lookup, text_key}
use prototype_cache.Prelude.Text.{strip, is_space, partition_on, lowers_to}
use prototype_cache.Errors.{ok, err, Error, service_auth, capability_denied, Result-cases}
use prototype_cache.Exec.{Exec, resume, ◌>>=◌}
use prototype_cache.ServiceIdentity.{authenticate, is_colon}
use prototype_cache.ServiceIdentity.Proof.{authenticate_iff}
use prototype_cache.Api.State.{Service, App}
use prototype_cache.Api.Identity.{
  credential, require_service_identity, require_admin, require_legacy_admin,
}
use prototype_cache.Api.Assets as Assets
use prototype_cache.Api.Legacy as Legacy
use prototype_cache.Api.Mint as Mint
use prototype_cache.Api.Console as Console
use prototype_cache.Api.Browse as Browse
use prototype_cache.Api.Bulk as Bulk
use prototype_cache.Api.Requests.{
  Request, reserve, commit, resolve, mint, annotate, expire, delete, detach, detach_mutable, rebind,
  change_eviction_policy, put_partition_quota, read_partition_quota, put_bucket_quota,
  read_bucket_quota, list_audit, mutate, quota, listing, inspect, audit, preview, bulk,
  is_admin_only, serve,
}

-- What follows an action that raises is not run.
resume_raised :
    {A B W : Type 0} (m : Exec W A) (f : A → Exec W B) (w : W) (e : Error)
    → m w ≡ (err e, w)
    → (m >>= f) w ≡ (err e, w)
resume_raised m f w e h = ap (λ r. resume r f) h

-- A text with a colon is not empty.
pair_filled :
    (t : String) (pair : String × String)
    → partition_on is_colon t ≡ some pair
    → str_eq t "" ≡ false
unfolding partition_on
pair_filled t pair h = elim (Bool-cases (str_eq t "")) [
  | inl blank ↦
      let empty : t ≡ "" = (eq_iff t "").0 blank in
      let split_nothing : partition_on is_colon "" ≡ some pair =
        subst (λ u. partition_on is_colon u ≡ some pair) empty h in
      absurd cc
  | inr filled ↦ filled
]

module _ {S : Type 0} (service : Service S) (authorization : String) where
  -- The header shows the secret of the service `who`, under the scheme of services.
  abbrev pub IsProof : String → Type 0
  IsProof who =
      (name : String) × (secret : String) × (lowers_to (credential authorization).0 "service"
        ≡ true)
      × (partition_on is_colon (credential authorization).1 ≡ some (name, secret))
      × (who ≡ strip is_space name)
      × (lookup who service.credentials.secrets ≡ some secret)

  -- Who is identified has shown its secret.
  pub require_service_identity-IsProof :
      (w : App S) (who : String)
      → (require_service_identity service authorization w).0 ≡ ok who
      → IsProof who
  unfolding require_service_identity
  require_service_identity-IsProof w who h =
      elim (Option-cases (partition_on is_colon (credential authorization).1)) [
        | inl absent ↦ absurd (ground arith)
        | inr (pair, found) ↦
            let shown : authenticate pair.0 pair.1 service.credentials ≡ ok who = ground arith in
            let (same, known) = (authenticate_iff service.credentials pair.0 pair.1 who).0 shown in
            (pair.0, pair.1, ground arith, found, same, known)
      ]

  -- An identification changes nothing.
  pub require_service_identity_rest :
      (w : App S) → (require_service_identity service authorization w).1 ≡ w
  unfolding require_service_identity
  require_service_identity_rest w = ground arith

  require_service_identity-service_auth :
      (w : App S) (e : Error)
      → (require_service_identity service authorization w).0 ≡ err e
      → e ≡ service_auth
  unfolding require_service_identity authenticate
  require_service_identity-service_auth w e h = ground arith

  IsProof-require_service_identity :
      (w : App S) (who : String)
      → IsProof who
      → require_service_identity service authorization w ≡ (ok who, w)
  unfolding require_service_identity
  IsProof-require_service_identity w who (name, secret, scheme, pair, same, known) =
      let shown = (authenticate_iff service.credentials name secret who).1 (same, known) in
      let filled : str_eq (credential authorization).1 "" ≡ false =
        pair_filled (credential authorization).1 (name, secret) pair in
      rw (scheme, filled, pair, shown) refl

  other_proven :
      (w : App S) (who : String)
      → IsProof who
      → str_eq who "admin" ≡ false
      → require_admin service authorization w ≡ (err capability_denied, w)
  unfolding require_admin
  other_proven w who proven other = rw (IsProof-require_service_identity w who proven, other) refl

  -- A guard that raises raises for each endpoint behind it.
  guarded_by_admin :
      (request : Request) (w : App S) (e : Error)
      → is_admin_only request ≡ true
      → require_admin service authorization w ≡ (err e, w)
      → serve service authorization request w ≡ (err e, w)
  unfolding serve require_legacy_admin Legacy.annotate_asset Legacy.expire Legacy.delete
      Legacy.detach Legacy.detach_mutable Legacy.rebind Legacy.change_eviction_policy
      Legacy.put_partition_quota Legacy.read_partition_quota Legacy.put_bucket_quota
      Legacy.read_bucket_quota Legacy.list_audit Console.mutate Console.quota Browse.listing
      Browse.inspect Browse.audit Bulk.preview Bulk.bulk
  guarded_by_admin (reserve a) w why admin h = cc
  guarded_by_admin (commit a b) w why admin h = cc
  guarded_by_admin (resolve a b) w why admin h = cc
  guarded_by_admin (mint a) w why admin h = cc
  guarded_by_admin (annotate a b c d) w why admin h = rw h refl
  guarded_by_admin (expire a b) w why admin h = rw h refl
  guarded_by_admin (delete a b) w why admin h = rw h refl
  guarded_by_admin (detach a b c) w why admin h = rw h refl
  guarded_by_admin (detach_mutable a b c) w why admin h = rw h refl
  guarded_by_admin (rebind a b c d) w why admin h = rw h refl
  guarded_by_admin (change_eviction_policy a b c) w why admin h = rw h refl
  guarded_by_admin (put_partition_quota a b c d e f) w why admin h = rw h refl
  guarded_by_admin (read_partition_quota a b) w why admin h = rw h refl
  guarded_by_admin (put_bucket_quota a b c d e) w why admin h = rw h refl
  guarded_by_admin (read_bucket_quota a) w why admin h = rw h refl
  guarded_by_admin (list_audit a b c d) w why admin h = rw h refl
  guarded_by_admin (mutate a b) w why admin h = rw h refl
  guarded_by_admin (quota a b c d e) w why admin h = rw h refl
  guarded_by_admin (listing a) w why admin h = rw h refl
  guarded_by_admin (inspect a) w why admin h = rw h refl
  guarded_by_admin (audit a) w why admin h = rw h refl
  guarded_by_admin (preview a) w why admin h = rw h refl
  guarded_by_admin (bulk a b) w why admin h = rw h refl

  guarded_by_identity :
      (request : Request) (w : App S) (e : Error)
      → require_service_identity service authorization w ≡ (err e, w)
      → serve service authorization request w ≡ (err e, w)
  unfolding serve Assets.reserve Assets.check_reserve Assets.commit Assets.resolve
      Mint.mint_capability require_admin
  guarded_by_identity (reserve a) w why h = rw h refl
  guarded_by_identity (commit a b) w why h = rw h refl
  guarded_by_identity (resolve a b) w why h = rw h refl
  guarded_by_identity (mint a) w why h = rw h refl
  guarded_by_identity (annotate a b c d) w why h =
      guarded_by_admin (annotate a b c d) w why refl (rw h refl)
  guarded_by_identity (expire a b) w why h = guarded_by_admin (expire a b) w why refl (rw h refl)
  guarded_by_identity (delete a b) w why h = guarded_by_admin (delete a b) w why refl (rw h refl)
  guarded_by_identity (detach a b c) w why h =
      guarded_by_admin (detach a b c) w why refl (rw h refl)
  guarded_by_identity (detach_mutable a b c) w why h =
      guarded_by_admin (detach_mutable a b c) w why refl (rw h refl)
  guarded_by_identity (rebind a b c d) w why h =
      guarded_by_admin (rebind a b c d) w why refl (rw h refl)
  guarded_by_identity (change_eviction_policy a b c) w why h =
      guarded_by_admin (change_eviction_policy a b c) w why refl (rw h refl)
  guarded_by_identity (put_partition_quota a b c d e f) w why h =
      guarded_by_admin (put_partition_quota a b c d e f) w why refl (rw h refl)
  guarded_by_identity (read_partition_quota a b) w why h =
      guarded_by_admin (read_partition_quota a b) w why refl (rw h refl)
  guarded_by_identity (put_bucket_quota a b c d e) w why h =
      guarded_by_admin (put_bucket_quota a b c d e) w why refl (rw h refl)
  guarded_by_identity (read_bucket_quota a) w why h =
      guarded_by_admin (read_bucket_quota a) w why refl (rw h refl)
  guarded_by_identity (list_audit a b c d) w why h =
      guarded_by_admin (list_audit a b c d) w why refl (rw h refl)
  guarded_by_identity (mutate a b) w why h = guarded_by_admin (mutate a b) w why refl (rw h refl)
  guarded_by_identity (quota a b c d e) w why h =
      guarded_by_admin (quota a b c d e) w why refl (rw h refl)
  guarded_by_identity (listing a) w why h = guarded_by_admin (listing a) w why refl (rw h refl)
  guarded_by_identity (inspect a) w why h = guarded_by_admin (inspect a) w why refl (rw h refl)
  guarded_by_identity (audit a) w why h = guarded_by_admin (audit a) w why refl (rw h refl)
  guarded_by_identity (preview a) w why h = guarded_by_admin (preview a) w why refl (rw h refl)
  guarded_by_identity (bulk a b) w why h = guarded_by_admin (bulk a b) w why refl (rw h refl)

-- The header shows the secret of a service that may use the endpoint: any configured service may use
-- those of services, and only the administrator the others.
abbrev pub MayAsk : {S : Type 0} → Service S → String → Request → Type 0
MayAsk service authorization request =
    (who : String) × IsProof service authorization who
    × ((not (is_admin_only request) || str_eq who "admin") ≡ true)

-- A request whose header does not show the secret of a service that may use the endpoint raises the
-- error for a missing authentication or for a missing right, and changes nothing in any part of the
-- process: no registry entry, no stored byte, no capability, no credit, not even a reading of the clock.
pub serve_refused :
    {S : Type 0} (service : Service S) (authorization : String) (request : Request) (w : App S)
    → ¬ MayAsk service authorization request
    → (e : Error) × (serve service authorization request w ≡ (err e, w))
      × ((e ≡ service_auth) ⊎ (e ≡ capability_denied))
serve_refused service authorization request w barred =
    elim (Result-cases (require_service_identity service authorization w).0) [
      | inr (e, h) ↦
          let still = require_service_identity_rest service authorization w in
          let same = require_service_identity-service_auth service authorization w e h in
          (e, guarded_by_identity service authorization request w e (ground arith), inl same)
      | inl (who, h) ↦
          let proven = require_service_identity-IsProof service authorization w who h in
          elim (Bool-cases (not (is_admin_only request) || str_eq who "admin")) [
            | inl may ↦ absurd (barred (who, proven, may))
            | inr barred_here ↦ (
              capability_denied,
              guarded_by_admin service authorization request w capability_denied (ground arith)
                  (other_proven service authorization w who proven (ground arith)),
              inr refl,
            )
          ]
    ]

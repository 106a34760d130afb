-- ===== src/ServiceIdentity/Proof.antt =====
-- Who is authenticated.
use prototype_cache.Prelude.{
  String, false, true, ◌||◌, ◌≡◌, ◌↔◌, subst, some, [], ◌∷◌, arith, str_eq, eq_iff, inl, inr,
  Bool-cases, Option-cases,
}
use prototype_cache.Prelude.Dict.{Dict, lookup, insert, lookup-insert, text_key}
use prototype_cache.Prelude.Text.{strip, is_space}
use prototype_cache.Errors.{ok, err, service_auth, validation, raise_if-ok, >>=-ok}
use prototype_cache.ServiceIdentity.{
  ServiceCredentialStore, is_empty, clean_credentials, new_credentials, authenticate,
}

-- A service is authenticated exactly if the secret that it shows is the one that is stored for its
-- name without spaces around it, which is the identity returned: a name that is not stored is never
-- authenticated, not even by the text that stands in for its secret.
pub authenticate_iff :
    (store : ServiceCredentialStore) (service_id secret who : String)
    → (authenticate service_id secret store ≡ ok who)
      ↔ ((who ≡ strip is_space service_id) × (lookup who store.secrets ≡ some secret))
unfolding authenticate
authenticate_iff store service_id secret who =
    let candidate = strip is_space service_id in
    elim (Option-cases (lookup candidate store.secrets)) [
      | inl unknown ↦ (λ h. absurd (ground arith), λ h. absurd (ground arith))
      | inr (expected, known) ↦ (
        λ h. (ground arith, ground (arith, eq_iff expected secret)),
        λ h. ground (arith, eq_iff expected secret),
      )
    ]

-- The names and the secrets of a store are not empty.
record AreProper (secrets : Dict String String) : Type 0 where
  pub proper :
      (name secret : String)
      → lookup name secrets ≡ some secret
      → (str_eq name "" ≡ false) × (str_eq secret "" ≡ false)

AreProper-insert :
    (secrets : Dict String String) (name secret : String)
    → str_eq name "" ≡ false
    → str_eq secret "" ≡ false
    → AreProper secrets
    → AreProper (insert name secret secrets)
AreProper-insert secrets name secret named kept h = record {
  proper = λ n s found. elim (Bool-cases (str_eq name n)) [
    | inl same ↦
        (ground (arith, eq_iff name n), ground (arith, lookup-insert name n secret secrets))
    | inr other ↦ h.proper n s (ground (arith, lookup-insert name n secret secrets))
  ];
}

clean_credentials-AreProper :
    (credentials cleaned secrets : Dict String String)
    → AreProper cleaned
    → clean_credentials credentials cleaned ≡ ok secrets
    → AreProper secrets
unfolding clean_credentials
clean_credentials-AreProper [] cleaned secrets h e =
    let same : cleaned ≡ secrets = cc in subst AreProper same h
clean_credentials-AreProper ((raw_id, secret) ∷ rest) cleaned secrets h e =
    let (named, e1) = raise_if-ok (str_eq (strip is_space raw_id) "") _ _ e in
    let (kept, e2) = raise_if-ok (str_eq secret "") _ _ e1 in
    clean_credentials-AreProper rest _ secrets
      (AreProper-insert cleaned (strip is_space raw_id) secret named kept h) e2

nothing-AreProper : AreProper []
unfolding lookup
nothing-AreProper = record { proper = λ n s found. cc }

nobody :
    (store : ServiceCredentialStore)
    → AreProper store.secrets
    → (service_id secret : String)
    → (str_eq secret "" || str_eq (strip is_space service_id) "") ≡ true
    → authenticate service_id secret store ≡ err service_auth
unfolding authenticate
nobody store h service_id secret lacking =
    elim (Option-cases (lookup (strip is_space service_id) store.secrets)) [
      | inl unknown ↦ ground arith
      | inr (expected, known) ↦
          let (named, kept) = h.proper (strip is_space service_id) expected known in
          ground (arith, eq_iff expected secret)
    ]

-- A store that was made authenticates nobody without a secret, and nobody without a name.
pub new_credentials-refuse :
    (credentials : Dict String String) (store : ServiceCredentialStore) (service_id secret : String)
    → new_credentials credentials ≡ ok store
    → (str_eq secret "" || str_eq (strip is_space service_id) "") ≡ true
    → authenticate service_id secret store ≡ err service_auth
unfolding new_credentials
new_credentials-refuse credentials store service_id secret made lacking =
    let (secrets, cleaned, e1) = >>=-ok (clean_credentials credentials []) _ made in
    let (filled, e2) =
      raise_if-ok (is_empty secrets) validation (ok (record { secrets = secrets })) e1 in
    let proper = clean_credentials-AreProper credentials [] secrets nothing-AreProper cleaned in
    let made_of : record { secrets = secrets } ≡ store = cc in
    subst (λ (s : ServiceCredentialStore). authenticate service_id secret s ≡ err service_auth)
      made_of (nobody (record { secrets = secrets }) proper service_id secret lacking)

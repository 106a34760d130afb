-- ===== src/ServiceIdentity.antt =====
-- src/asset_store_core/service_identity.py: the credentials by which services prove who they are.
-- `hmac.compare_digest` is equality; that it takes constant time is not modelled.
pub mod Proof
use Prim.Native.Char.{Char, code}
use Prim.Native.String.{◌++◌}
use prototype_cache.Prelude.{
  ℕ, String, Bool, true, false, not, ◌||◌, ◌&&◌, Option, none, some, List, [], ◌∷◌, nat_eq, is_some,
  get_or, str_eq,
}
use prototype_cache.Prelude.Dict.{Dict, lookup, insert, text_key}
use prototype_cache.Prelude.Text.{strip, is_space, split_on, partition_on, lowers_to}
use prototype_cache.Errors.{
  Result, ok, err, validation, service_auth, raise_if, or_raise, ◌>>=◌, ◌>>◌,
}
use prototype_cache.ServicePolicy.{known_service_ids}

pub record ServiceCredentialStore : Type 0 where
  pub secrets : Dict String String

unfoldable pub dev_secret : String → String
dev_secret service_id = "dev-secret:" ++ strip is_space service_id

-- the loop of `__init__`
unfoldable pub clean_credentials :
    Dict String String → Dict String String → Result (Dict String String)
clean_credentials [] cleaned = ok cleaned
clean_credentials ((raw_id, secret) ∷ rest) cleaned = do
  let service_id = strip is_space raw_id
  raise_if (str_eq service_id "") validation
  raise_if (str_eq secret "") validation
  clean_credentials rest (insert service_id secret cleaned)

abbrev pub is_empty : Dict String String → Bool
is_empty [] = true
is_empty _ = false

-- `__init__`
unfoldable pub new_credentials : Dict String String → Result ServiceCredentialStore
unfolding clean_credentials
new_credentials credentials = do
  cleaned ← clean_credentials credentials []
  raise_if (is_empty cleaned) validation
  ok (record { secrets = cleaned })

-- the text of one NUL, which stands in for the secret of an unknown identity
abbrev pub placeholder : String
placeholder = "\0"

unfoldable pub authenticate : String → String → ServiceCredentialStore → Result String
authenticate service_id secret store = do
  let candidate = strip is_space service_id
  let expected = lookup candidate store.secrets
  let same = str_eq (get_or expected placeholder) secret
  raise_if (not (is_some expected) || not same) service_auth
  ok candidate

unfoldable pub dev_secrets : List String → Dict String String
unfolding dev_secret
dev_secrets [] = []
dev_secrets (service_id ∷ rest) = insert service_id (dev_secret service_id) (dev_secrets rest)

unfoldable pub dev_default : Result ServiceCredentialStore
unfolding dev_secrets new_credentials
dev_default = new_credentials (dev_secrets known_service_ids)

abbrev is_comma : Char → Bool
is_comma c = nat_eq (code c) 44

abbrev pub is_colon : Char → Bool
is_colon c = nat_eq (code c) 58

-- the loop of `from_env` over the entries
unfoldable pub parse_entries : List String → Dict String String → Result (Dict String String)
parse_entries [] credentials = ok credentials
parse_entries (entry ∷ rest) credentials =
    let item = strip is_space entry in
    let skipped = parse_entries rest credentials in
    elim (str_eq item "") [
      | true ↦ skipped
      | false ↦ do
        pair ← or_raise (partition_on is_colon item) validation
        parse_entries rest (insert (strip is_space pair.0) (strip is_space pair.1) credentials)
    ]

-- `in {"1", "true", "yes"}`, after `lower()`
abbrev is_enabled : String → Bool
is_enabled flag = lowers_to flag "1" || lowers_to flag "true" || lowers_to flag "yes"

unfoldable pub from_env : Dict String String → Result ServiceCredentialStore
unfolding dev_default parse_entries new_credentials split_on
from_env source =
    let raw = get_or (lookup "ASSET_STORE_SERVICE_CREDENTIALS" source) "" in
    elim (str_eq (strip is_space raw) "") [
      | true ↦ elim (is_enabled (get_or (lookup "ASSET_STORE_DEV_MODE" source) "")) [
        | true ↦ dev_default
        | false ↦ err validation
      ]
      | false ↦ do
        credentials ← parse_entries (split_on is_comma raw) []
        new_credentials credentials
    ]

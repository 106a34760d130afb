-- ===== src/Registry/Queries.antt =====
-- src/asset_store_core/registry.py: what is read from the registry (`list_assets`,
-- `recent_audit`, `query_assets`) and `record_capability_issue`.
pub mod Log
use Prim.Native.Nat.{compare, Ordering}
use Prim.Native.String
use prototype_cache.Prelude.{
  ℕ, ◌+◌, ◌-◌, String, Bool, true, false, not, ◌&&◌, ◌||◌, Option, none, some, List, [], ◌∷◌, leb,
  is_some, str_eq, keep, take, drop, length, if◌then◌else◌,
}
use prototype_cache.Prelude.Dict.{Dict, lookup, values, text_key}
use prototype_cache.Errors.{Result, ok, validation, raise_if, ◌>>=◌, ◌>>◌}
use prototype_cache.Exec.{Exec}
use prototype_cache.Models.{Asset, AuditEvent, Detail, text, number}
use prototype_cache.Env.{Env}
use prototype_cache.AdminQuery.{AssetQuery, matches}
use prototype_cache.Registry.State.{Registry, audit}

unfoldable pub list_assets : Registry → List Asset
list_assets s = keep (λ a. not (is_some a.payload_deleted_at)) (values s.assets)

-- `details.get("asset_id") == asset_id`
abbrev names_asset : Dict String Detail → String → Bool
names_asset details asset_id = elim (lookup "asset_id" details) [
  | some (text t) ↦ str_eq t asset_id
  | _ ↦ false
]

unfoldable pub concerns : Option String → AuditEvent → Bool
concerns none e = true
concerns (some asset_id) e =
    str_eq e.target asset_id || names_asset e.before asset_id || names_asset e.after asset_id

unfoldable pub recent_audit : Registry → Option String → ℕ → Result (List AuditEvent)
unfolding concerns
recent_audit s asset_id limit = do
  raise_if (not (leb 1 limit && leb limit 500)) validation
  let events = keep (concerns asset_id) s.audit_events
  ok (drop (length events - limit) events)

-- the order of `(created_at, asset_id)`
unfoldable pub is_before : ℕ × String → ℕ × String → Bool
is_before (t, a) (u, b) = elim (compare t u) [
  | Ordering.lt ↦ true
  | Ordering.eq ↦ elim (String.compare a b) [ Ordering.lt ↦ true | _ ↦ false ]
  | Ordering.gt ↦ false
]

abbrev pub sort_key : Asset → ℕ × String
sort_key a = (a.created_at, a.asset_id)

unfoldable pub insert_sorted : Asset → List Asset → List Asset
unfolding is_before
insert_sorted a [] = a ∷ []
insert_sorted a (b ∷ rest) =
    if is_before (sort_key b) (sort_key a) then b ∷ insert_sorted a rest else a ∷ b ∷ rest

-- `sorted(assets, key=sort_key)`, stable
unfoldable pub sort_assets : List Asset → List Asset
unfolding insert_sorted
sort_assets [] = []
sort_assets (a ∷ rest) = insert_sorted a (sort_assets rest)

abbrev beyond : Option (ℕ × String) → Asset → Bool
beyond none a = true
beyond (some cursor) a = is_before cursor (sort_key a)

unfoldable pub query_assets : Registry → AssetQuery → Result (List Asset)
unfolding sort_assets
query_assets s q = do
  after ← q.after
  ok (
      take (q.limit + 1)
        (keep (λ a. matches q a && beyond after a) (sort_assets (values s.assets))))

-- the fingerprint of the identifier, where there is one
abbrev fingerprint : Env → Option String → Dict String Detail
fingerprint env none = []
fingerprint env (some capability_id) =
    ("capability_fingerprint", text (env.sha256 capability_id)) ∷ []

unfoldable pub record_capability_issue :
    Env → String → String → String → ℕ → String → Option String → Exec Registry (Unit {0})
record_capability_issue env caller operation scope_prefix ttl_seconds outcome capability_id =
    audit env "capability.issue" scope_prefix caller outcome [] (
      ("operation", text operation)
      ∷ ("ttl_seconds", number (some ttl_seconds))
      ∷ fingerprint env capability_id)

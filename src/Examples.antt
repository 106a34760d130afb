-- ===== src/Examples.antt =====
-- The theorems at concrete inputs: a process with a simple clock, one bucket budget, and a few
-- requests.
mod Guarded
mod Swept
mod Fetched
mod Served
use prototype_cache.Prelude.{
  ltb, if◌then◌else◌, ℕ, ◌+◌, ◌*◌, ◌≤◌, ◌<◌, String, ◌≡◌, ◌↔◌, ◌⊎◌, refl, true, false, Bool, none,
  some, List, [], ◌∷◌, ◌++◌, arith, leb, length, contains, keep,
}
use prototype_cache.Prelude.Int.{pos, negsuc}
use prototype_cache.Prelude.Text.{split, strip, is_space}
use prototype_cache.Prelude.Dict.{lookup, insert, text_key}
use prototype_cache.Errors.{
  Error, Result, ok, err, capability_already_consumed, object_not_found, asset_deleted,
  asset_expired,
}
use prototype_cache.Models.{Asset, AuditEvent, pending, available, expired, deleted, Ratio, inherit}
use prototype_cache.Env.{Env, object}
use prototype_cache.Paths.{
  normalize_bucket, storage_buckets, normalize_space, qualified_alias, normalize_relative_alias,
  normalize_partition_id,
}
use prototype_cache.Paths.Safe.{normalize_relative_alias-clean, for_asset-split}
use prototype_cache.Storage.{ObjectStoreLocation, build_storage_key, for_asset}
use prototype_cache.Retention.{
  second, max_time, expiry_for, require_live, is_past, validate_cleanup_transition,
}
use prototype_cache.Retention.Deadlines.{
  IsWithin, expiry_for_tmp, expiry_for_results, require_live_iff, validate_cleanup_transition_iff,
}
use prototype_cache.Capabilities.Scope.{Capability, read, write, is_same_path_or_child}
use prototype_cache.Capabilities.Scope.Segments.{segments, is_same_path_or_child_iff}
use prototype_cache.Capabilities.Ledger.{SingleUseLedger, record_successful_use, assert_unused}
use prototype_cache.Capabilities.Ledger.Once.{Request, tidy, check, use_up, serve, single_use_once}
use prototype_cache.Capabilities.Store.{CapabilityStore, issue, get}
use prototype_cache.Capabilities.Store.Bounds.{issue-get}
use prototype_cache.Admission.{WorkAdmission, new_gate, begin_lease, end_lease}
use prototype_cache.Admission.Jobs.{
  Reachable as JobsReach, start, step, admit, finish, Reachable-active,
}
use prototype_cache.ServicePolicy.{assert_service_bucket_allowed}
use prototype_cache.ServicePolicy.Allowed.{assert_service_bucket_allowed-read}
use prototype_cache.ObjectStore.{
  StoredObjectStat, LocalObjectStore, new_object_store, compute_checksum, put_object, get_object,
  stat_object, delete_object,
}
use prototype_cache.ObjectStore.Contents.{
  is_same_place, put_object-get_object, delete_object-get_object,
}
use prototype_cache.Registry.State.{Registry, registry_with}
use prototype_cache.Registry.Names.{names, normalize_alias_specs, alias_under_partition}
use prototype_cache.Registry.Quota.{enforce_quota}
use prototype_cache.Registry.Counters.{acquire_quota}
use prototype_cache.Registry.Lifecycle.{commit_asset}
use prototype_cache.Registry.Aliases.{resolve_alias, reserve_asset}
use prototype_cache.Registry.Queries.{concerns, recent_audit}
use prototype_cache.Registry.Queries.Log.{recent_audit-end}
use prototype_cache.Registry.Accounts.{IsWellFormed}
use prototype_cache.Registry.Calls.{Call, reserve, commit, delete, run, Reachable, start, call}
use prototype_cache.Registry.Calls.Accounting.{Reachable-IsWellFormed}
use prototype_cache.Registry.Calls.History.{IsLater, run-IsLater}
use prototype_cache.Registry.Behaviour.Commit.{Commits, commit_asset_outcome}
use prototype_cache.Registry.Behaviour.Resolve.{IsServed, resolve_alias_iff}

abbrev id_of : ℕ → String
id_of ℕ.zero = "asset-0"
id_of _ = "asset-later"

-- `x >= q * r` by exact arithmetic
abbrev reaches_exactly : ℕ → ℕ → Ratio → Bool
reaches_exactly x q r = elim r.numerator [
  | pos n ↦ leb (q * n) (x * r.denominator)
  | negsuc n ↦ true
]

-- `x <= q * r` by exact arithmetic
abbrev within_exactly : ℕ → ℕ → Ratio → Bool
within_exactly x q r = elim r.numerator [
  | pos n ↦ leb (x * r.denominator) (q * n)
  | negsuc n ↦ false
]

abbrev pub process : Env
process = record {
  clock = λ n. 1000 + n;
  new_uuid = id_of;
  sha256 = λ x. x;
  results_max_ttl = some (pos 3600);
  capacity_bytes = some (object (("users", some (pos 1000000)) ∷ []));
  capacity_hard_ratio = some (record { numerator = pos 95; denominator = 100 });
  reaches = reaches_exactly;
  within = within_exactly;
  scores_less = λ x y. ltb (x.0 * x.1) (y.0 * y.1);
}

abbrev pub empty : Registry
empty = registry_with 10

abbrev pub reservation : Call
reservation = reserve "users" "u1" (names ("a.jpg" ∷ [])) "edge" none [] inherit none (some (pos 7))

abbrev commitment : Call
commitment = commit "asset-0" (pos 7) "abc" "edge" none none

abbrev removal : Call
removal = delete "asset-0" "edge"

abbrev pub reserved_state : Registry
reserved_state = run process reservation empty

abbrev pub uploaded : Registry
uploaded = run process commitment reserved_state

pub reached : Reachable process 10 uploaded
unfolding run lookup
reached = call commitment (call reservation start refl) tt

Reachable-IsWellFormed_example : IsWellFormed uploaded
Reachable-IsWellFormed_example = Reachable-IsWellFormed process 10 reached

abbrev pub waiting : Asset
waiting = record {
  asset_id = "asset-0";
  space = "users";
  partition_id = "u1";
  storage_key = "u1/assets/asset-0";
  state = pending;
  aliases = "users/u1/a.jpg" ∷ [];
  mime = none;
  size_bytes = none;
  reserved_bytes = some 7;
  checksum_algo = "sha256";
  checksum = none;
  annotations = [];
  created_at = 1000;
  updated_at = 1000;
  expires_at = none;
  expired_at = none;
  last_read_at = none;
  read_count = 0;
  payload_deleted_at = none;
  owner_service_id = "edge";
  eviction_policy = inherit;
}

abbrev pub stored : Asset
stored = record waiting {
  state = available;
  size_bytes = some 7;
  reserved_bytes = none;
  checksum = some "abc";
  updated_at = 1003;
}

pub reserved_asset : lookup "asset-0" reserved_state.assets ≡ some waiting
unfolding run reserve_asset lookup normalize_space normalize_partition_id normalize_alias_specs
    insert alias_under_partition qualified_alias enforce_quota build_storage_key expiry_for
reserved_asset = refl

pub uploaded_asset : lookup "asset-0" uploaded.assets ≡ some stored
unfolding run reserve_asset commit_asset lookup strip is_space acquire_quota normalize_space
    normalize_partition_id normalize_alias_specs insert alias_under_partition qualified_alias
    enforce_quota build_storage_key expiry_for
uploaded_asset = refl

run-IsLater_example :
    (b : Asset) × (lookup "asset-0" (run process removal uploaded).assets ≡ some b)
    × IsLater stored b
run-IsLater_example = run-IsLater process 10 reached removal tt "asset-0" stored uploaded_asset

pub reserved_state-IsWellFormed : IsWellFormed reserved_state
reserved_state-IsWellFormed = Reachable-IsWellFormed process 10 reached_reserved
  where
    reached_reserved : Reachable process 10 reserved_state
    reached_reserved = unfold lookup in call reservation start refl

abbrev upload_now : Registry → Result Asset × Registry
upload_now = commit_asset process "asset-0" (pos 7) "abc" "edge" none none

commit_asset_outcome_example :
    ((e : Error) × (upload_now reserved_state ≡ (err e, reserved_state)))
    ⊎ ((old : Asset) × (new : Asset) × ((upload_now reserved_state).0 ≡ ok new)
        × Commits process reserved_state (upload_now reserved_state).1 "asset-0" (pos 7) old new)
commit_asset_outcome_example =
    commit_asset_outcome process reserved_state "asset-0" (pos 7) "abc" "edge" none none
      reserved_state-IsWellFormed

resolve_alias_iff_example :
    ((resolve_alias process "users" "u1/a.jpg" uploaded).0 ≡ ok stored)
    ↔ IsServed process uploaded "users" "u1/a.jpg" stored
resolve_alias_iff_example = resolve_alias_iff process "users" "u1/a.jpg" uploaded stored

abbrev pub ticket : Capability
ticket = record {
  capability_id = "c1";
  operation = write;
  scope_prefix = "users/u1";
  expires_at = 50;
  caller_service_id = "edge";
  single_use = true;
}

abbrev pub no_uses : SingleUseLedger
no_uses = record { consumed = [] }

first_use : (record_successful_use ticket 10 no_uses).0 ≡ ok tt
unfolding record_successful_use lookup
first_use = refl

abbrev between : List Request
between = tidy 20 ∷ check ticket 25 ∷ use_up (record ticket { capability_id = "c2" }) 30 ∷ []

single_use_once_example :
    ((record_successful_use ticket 49 (serve between (record_successful_use ticket 10 no_uses).1)).0
      ≡ err capability_already_consumed)
    × ((assert_unused ticket 49 (serve between (record_successful_use ticket 10 no_uses).1)).0
        ≡ err capability_already_consumed)
single_use_once_example =
    single_use_once ticket 10 49 between no_uses refl first_use
      (omega arith, (omega arith, (omega arith, tt))) (omega arith)

is_same_path_or_child_iff_example :
    (is_same_path_or_child "users/42/uploads/a.jpg" "users/42/uploads" ≡ true) ↔ (
      (rest : List String) × (segments "users/42/uploads/a.jpg"
        ≡ segments "users/42/uploads" ++ rest))
is_same_path_or_child_iff_example =
    is_same_path_or_child_iff "users/42/uploads/a.jpg" "users/42/uploads"

abbrev small_store : CapabilityStore
small_store = record { max_capabilities = 1; capabilities = [] }

issued : (issue ticket 10 (ok tt) small_store).0 ≡ ok tt
unfolding issue
issued = refl

abbrev granted : Result (Unit {0})
granted = ok tt

issue-get_example :
    (granted ≡ ok tt)
    × (10 < 50)
    × ((get "c1" 30 (issue ticket 10 (ok tt) small_store).1).0 ≡ ok (some ticket))
issue-get_example = issue-get small_store ticket 10 30 (ok tt) issued (omega arith)

validate_cleanup_transition_iff_example :
    (validate_cleanup_transition stored expired false ≡ ok tt) ↔ (
      (stored.payload_deleted_at ≡ none)
      × (((stored.state ≡ available) × (expired ≡ expired) × (false ≡ false))
          ⊎ (((stored.state ≡ pending) ⊎ (stored.state ≡ expired))
              × (expired ≡ deleted)
              × (false ≡ false))
          ⊎ ((stored.state ≡ deleted) × (expired ≡ deleted))))
validate_cleanup_transition_iff_example = validate_cleanup_transition_iff stored expired false

tmp_deadline : expiry_for process "tmp" none 5 ≡ ok (some 86400000005)
unfolding expiry_for
tmp_deadline = refl

expiry_for_tmp_example :
    (t : ℕ) × (some 86400000005 ≡ some t) × (5 < t) × (t ≤ 5 + 604800 * second) × (t ≤ max_time)
expiry_for_tmp_example = expiry_for_tmp process none 5 (some 86400000005) tmp_deadline

results_deadline : expiry_for process "results" (some (pos 60)) 5 ≡ ok (some 60000005)
unfolding expiry_for
results_deadline = refl

expiry_for_results_example :
    (t : ℕ) × (some 60000005 ≡ some t) × (5 < t) × (t ≤ 5 + 3600 * second) × (t ≤ max_time)
expiry_for_results_example =
    expiry_for_results process 3600 (some (pos 60)) 5 (some 60000005) refl results_deadline

require_live_iff_example :
    ((require_live stored 2000 ≡ ok tt)
      ↔ ((stored.state ≡ pending) ⊎ ((stored.state ≡ available) × IsWithin stored.expires_at 2000)))
    × ((require_live stored 2000 ≡ err asset_deleted) ↔ (stored.state ≡ deleted))
    × ((require_live stored 2000 ≡ err asset_expired) ↔ (
        (stored.state ≡ expired)
        ⊎ ((stored.state ≡ available) × (t : ℕ) × (stored.expires_at ≡ some t) × (t ≤ 2000))))
require_live_iff_example = require_live_iff stored 2000

clean_alias : normalize_relative_alias " /a/b.jpg " ≡ ok "a/b.jpg"
unfolding normalize_relative_alias
clean_alias = refl

normalize_relative_alias-clean_example :
    (contains "" (split "a/b.jpg") ≡ false)
    × (contains "." (split "a/b.jpg") ≡ false)
    × (contains ".." (split "a/b.jpg") ≡ false)
normalize_relative_alias-clean_example =
    normalize_relative_alias-clean " /a/b.jpg " "a/b.jpg" clean_alias

abbrev pub place : ObjectStoreLocation
place = record { bucket = "users"; key = "u1/assets/asset-0" }

located : for_asset "users" "u1" "asset-0" ≡ ok place
unfolding for_asset
located = refl

for_asset-split_example :
    (pid : String) × (normalize_partition_id "u1" ≡ ok pid)
    × (contains "users" storage_buckets ≡ true)
    × (split "u1/assets/asset-0" ≡ split pid ++ ("assets" ∷ split (strip is_space "asset-0")))
for_asset-split_example = for_asset-split "users" "u1" "asset-0" place located

abbrev alias_event : AuditEvent
alias_event = record {
  action = "alias.create";
  target = "users/u1/a.jpg";
  caller_service_id = "edge";
  outcome = "success";
  before = [];
  after = [];
  ts = 3;
}

abbrev commit_event : AuditEvent
commit_event = record alias_event { action = "asset.commit"; target = "asset-0" }

abbrev logged : Registry
logged = record empty { audit_events = alias_event ∷ commit_event ∷ [] }

last_event : recent_audit logged none 1 ≡ ok (commit_event ∷ [])
unfolding recent_audit
last_event = refl

recent_audit-end_example :
    (older : List AuditEvent) × (keep (concerns none) logged.audit_events
      ≡ older ++ (commit_event ∷ []))
    × (length (commit_event ∷ []) ≤ 1)
    × ((older ≡ []) ⊎ (length (commit_event ∷ []) ≡ 1))
recent_audit-end_example = recent_audit-end logged none 1 (commit_event ∷ []) last_event

abbrev gate : ℕ → WorkAdmission
gate n = record { limit = 2; active = n }

made_gate : new_gate (pos 2) ≡ ok (gate 0)
unfolding new_gate
made_gate = refl

abbrev remaining : List String
remaining = "b" ∷ []

two_came_one_left : JobsReach (gate 0) (gate 1, remaining)
unfolding begin_lease end_lease
two_came_one_left =
    step (step (step start (admit "b" refl)) (admit "a" refl)) (finish [] "a" ("b" ∷ []))

Reachable-active_example :
    (1 ≡ length remaining)
    × (length remaining ≤ 2)
    × (((begin_lease (gate 1)).0 ≡ ok tt) ↔ (length remaining < 2))
Reachable-active_example = Reachable-active (pos 2) made_gate two_came_one_left

worker_writes : assert_service_bucket_allowed "worker" "results" write ≡ ok tt
unfolding assert_service_bucket_allowed strip is_space normalize_bucket
worker_writes = refl

assert_service_bucket_allowed-read_example :
    assert_service_bucket_allowed "worker" "results" read ≡ ok tt
assert_service_bucket_allowed-read_example =
    assert_service_bucket_allowed-read "worker" "results" worker_writes

-- a digest that tells contents of different lengths apart
abbrev pub length_digest : List ℕ → String
length_digest [] = "0"
length_digest _ = "more"

abbrev pub picture : List ℕ
picture = 255 ∷ 216 ∷ []

abbrev pub picture_stat : StoredObjectStat
picture_stat = record { size_bytes = 2; checksum = "sha256:more"; checksum_algo = "sha256" }

abbrev elsewhere : ObjectStoreLocation
elsewhere = record place { key = "u1/assets/asset-1" }

put_picture : (put_object length_digest place picture new_object_store).0 ≡ ok picture_stat
unfolding put_object compute_checksum
put_picture = refl

abbrev pub holding : LocalObjectStore
holding = (put_object length_digest place picture new_object_store).1

put_object-get_object_example :
    (get_object elsewhere holding ≡ (
      if is_same_place place elsewhere then ok picture else get_object elsewhere new_object_store))
    × (stat_object length_digest elsewhere holding ≡ (
        if is_same_place place elsewhere
        then some picture_stat
        else stat_object length_digest elsewhere new_object_store))
put_object-get_object_example =
    put_object-get_object length_digest place elsewhere picture new_object_store picture_stat
      put_picture

delete_object-get_object_example :
    get_object place (delete_object place holding)
    ≡ (if is_same_place place place then err object_not_found else get_object place holding)
delete_object-get_object_example = delete_object-get_object place place holding

-- ===== src/Lib.antt =====
-- A model of the asset store (src/asset_store_core) and what its core promises.
--
-- The asset store keeps named assets in buckets. A client reserves an asset under a partition of a
-- bucket, uploads its bytes into an object store, and commits it; readers find it by an alias. The
-- registry (src/asset_store_core/registry.py) keeps the assets, the bindings of aliases, the
-- tombstones of detached names, the counters of the quotas and the audit log. Capabilities
-- (capabilities.py) say which service may read or write below which path, and until when. Retention
-- (retention.py) gives deadlines, and allows or refuses reads, maintenance and more bytes.
--
-- The guard (guard.py) puts them together: it checks a capability, and then reads or uploads bytes
-- through the registry and an object store. The maintenance worker (lifecycle.py) sweeps the
-- registry, and expires, deletes and purges. The fetcher (src/fetcher_service) is a client: it
-- brings the bytes of a URL into the cache or a temporary partition, and finds them there later.
-- The HTTP process (api) holds the registry, the guard, the store of capabilities, the limiter of
-- their issue (issuance_rate.py) and the gate of uploads (admission.py): services reserve, commit,
-- resolve and get capabilities, holders of capabilities upload and download, and an administrator
-- does the rest.
--
-- Files, each with the file of src/asset_store_core, or of src/fetcher_service, that it models:
--   Prelude       Boolean tests, lists, Python's integers (Prelude/Int), dictionaries as association
--                 lists in the order of insertion (Prelude/Dict), str methods (Prelude/Text)
--   Errors        errors.py: one constructor for each error, without its message
--   Models        models.py: the records; a time is a number of microseconds
--   Env           what the process takes from outside: clock, uuid, hash, environment variables
--   Exec          methods that change an object and may raise; what was written stays written
--   Paths         paths.py; Paths/Safe and Paths/Normal say what names look like
--   Storage       storage.py
--   Retention     retention.py; Retention/Deadlines
--   Capabilities  capabilities.py: Scope (Capability), Ledger (SingleUseLedger) and Store
--                 (CapabilityStore), each with a module of theorems below it
--   Admission     admission.py: WorkAdmission; Admission/Jobs has jobs that come and go in any order
--   ServicePolicy service_policy.py; ServicePolicy/Allowed
--   ObjectStore   object_store.py: LocalObjectStore; ObjectStore/Contents
--   ObjectStore/Backend   the operations that the guard and the worker use of any object store
--   DataPlane     the registry, an object store and the ledger together; DataPlane/Visits has
--                 the rules for blocks that change the registry by its operations only
--   Guard         guard.py: Alias (_parse_alias), Access (resolve_for_read, read_bytes,
--                 presign_read, authorize_write; authorize is what each begins with) and Upload
--                 (write_object, _cleanup_failed_upload); theorems in the other modules below it
--   Lifecycle     lifecycle.py: Policy (SweepPolicy, Action), Plan (plan_sweep) and Sweep
--                 (run_sweep); theorems in the other modules below it
--   ServiceIdentity   service_identity.py: ServiceCredentialStore; ServiceIdentity/Proof
--   Fetcher       src/fetcher_service: Urls (normalize.py), Rules (rules.py) and Ensure (service.py);
--                 Fetcher/Reuse says what a request for a bound alias does
--   IssuanceRate  issuance_rate.py: IssuanceRateLimiter, over any arithmetic of floats
--   Exec/Follows  the rules for blocks whose end state is related to their start state
--   Api           api: State (what create_app makes), Identity (the dependencies that say who
--                 calls), Assets, Legacy, Mint and Objects (the endpoints of app.py), Filters,
--                 Console, Browse and Bulk (admin.py), Schemas (schemas.py), Problems (errors.py).
--                 Requests is a type of requests with the handler of each; Process runs requests
--                 and overlapping uploads as events; Refusals, Objects/Received, Serving and
--                 Process/Invariants have the theorems
--   AdminQuery    admin_query.py: AssetQuery without its cursor's encoding
--   Registry      registry.py, InMemoryAssetRegistry: State (the fields, __init__, _audit), Quota
--                 (_enforce_quota), Counters (_acquire_quota, _release_quota, set_*_quota), Names
--                 (the module's functions on aliases), Lifecycle (commit_asset, expire_asset,
--                 delete_asset, lifecycle_update, set_asset_ttl, ...), Aliases (reserve_asset,
--                 attach_alias, resolve_alias, detach_*, rebind_alias), Queries (recent_audit,
--                 query_assets, ...)
--   Registry/Accounts   what the operations do to assets and counters, as a step relation, and the
--                 invariant of the counters; Registry/Steps says that each operation is such steps
--   Registry/Calls      sequences of calls from a new registry; Registry/Behaviour, single operations
--   Examples      a process and a few requests, on which the theorems are applied
--
-- Where the code reads the clock or takes an identifier, the model takes the next one of a sequence
-- in Env; a theorem about reservations assumes that a new identifier is in use nowhere, as uuid4
-- promises. A comparison of integers with a float is a field of Env, and no theorem assumes
-- anything of it. A loop over a list is a recursion on it, so nothing needs fuel. Python's integers
-- are unbounded, and so are the numbers here; where a deadline is asked for, and where a detached
-- name gets its grace period, a sum past the last datetime raises; the clock is taken to be more than
-- a day before that, where an expiry of a capability or of a URL is computed.
--
-- Every operation of the registry, the guard and the sweep, and every handler, runs as one sequence.
-- The registry in memory has no lock, and the process runs handlers in threads, and the write of an
-- upload in a worker thread: what these do to one another's registry, object store and ledger in the
-- midst of an operation is not modelled, and the theorems on single operations are about one that
-- runs alone. The theorems on the process (Api/Process) are about what has locks in the code, the
-- capability store and the upload gate, and let an event `disturb` replace the registry, the object
-- store and the ledger by any others between the steps.
--
-- Not modelled: the Postgres registry, the S3 store, and of the fetcher the outbound HTTP and the
-- pilot policy; the maintenance worker's main; of the HTTP process the parsing of requests
-- and the static files; messages of errors, logs, metrics, and the encoding of the admin cursor.
pub mod Prelude
pub mod Errors
pub mod Models
pub mod Env
pub mod Exec
pub mod Paths
pub mod Storage
pub mod Retention
pub mod Registry
pub mod AdminQuery
pub mod Capabilities
pub mod ObjectStore
pub mod DataPlane
pub mod Guard
pub mod Lifecycle
pub mod Admission
pub mod ServicePolicy
pub mod ServiceIdentity
pub mod IssuanceRate
pub mod Api
pub mod Fetcher
pub mod Examples

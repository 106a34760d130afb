-- ===== src/Guard/Upload.antt =====
-- `write_object` and `_cleanup_failed_upload`. The in-memory registry's `asset_lock` gives the
-- asset and locks nothing, as the process has one thread.
use prototype_cache.Prelude.{
  ℕ, String, Bool, true, false, not, Option, some, List, [], ◌∷◌, length, is_some,
}
use prototype_cache.Prelude.Int.{ℤ, pos}
use prototype_cache.Errors.{validation}
use prototype_cache.Exec.{Exec, pure, raise, lift, raise_when, if_else, catch, ◌>>=◌, ◌>>◌}
use prototype_cache.Models.{Asset, pending, deleted, inherit, state_eq}
use prototype_cache.Env.{Env}
use prototype_cache.Storage.{ObjectStoreLocation, for_asset}
use prototype_cache.ObjectStore.Backend.{ObjectStoreBackend}
use prototype_cache.Capabilities.Scope.{Capability, write}
use prototype_cache.Capabilities.Ledger.{record_successful_use}
use prototype_cache.Registry.State.{get_asset}
use prototype_cache.Registry.Names.{flags}
use prototype_cache.Registry.Aliases.{reserve_asset}
use prototype_cache.Registry.Lifecycle.{commit_asset, lifecycle_update}
use prototype_cache.DataPlane.{DataPlane, on_registry, on_store, on_ledger, read_clock}
use prototype_cache.Guard.Access.{authorize}

-- the label of the cleanup's counter
pub data Outcome : Type 0 where
  deferred preserved reclaimed : Outcome

module _ (env : Env) {S : Type 0} (backend : ObjectStoreBackend S) where
  -- the second `with` block of the cleanup
  unfoldable pub reclaim : String → ObjectStoreLocation → Exec (DataPlane S) Outcome
  reclaim asset_id location = do
    fenced ← on_registry (get_asset asset_id)
    if_else (is_some fenced.payload_deleted_at) (pure reclaimed) (
        if_else (not (state_eq fenced.state deleted)) (pure preserved) (do
          on_store (backend.delete location)
          now ← read_clock env
          updated ← on_registry (lifecycle_update env fenced deleted now "upload_failed" true)
          pure reclaimed))

  -- the first `with` block, and then the second
  unfoldable pub fence_and_reclaim : String → ObjectStoreLocation → Exec (DataPlane S) Outcome
  unfolding reclaim
  fence_and_reclaim asset_id location = do
    current ← on_registry (get_asset asset_id)
    if_else (state_eq current.state pending)
        (do
          now ← read_clock env
          updated ← on_registry (lifecycle_update env current deleted now "upload_failed" false)
          reclaim asset_id location)
        (if_else (not (state_eq current.state deleted)) (pure preserved)
          (reclaim asset_id location))

  unfoldable pub cleanup_failed_upload : String → ObjectStoreLocation → Exec (DataPlane S) Outcome
  unfolding fence_and_reclaim
  cleanup_failed_upload asset_id location =
      catch (fence_and_reclaim asset_id location) (λ e. pure deferred)

  -- the `with` block of `write_object`
  unfoldable pub put_and_commit :
      Asset
      → ObjectStoreLocation
      → String
      → List ℕ
      → Option String
      → Option String
      → Exec (DataPlane S) Asset
  put_and_commit reserved location caller content mime expected_checksum = do
    locked ← on_registry (get_asset reserved.asset_id)
    raise_when (not (state_eq locked.state pending)) validation
    stat ← on_store (backend.put location content)
    on_registry (
        commit_asset env reserved.asset_id (pos stat.size_bytes) stat.checksum caller mime
          expected_checksum)

  -- the cleanup, and then the error of the upload again
  unfoldable pub upload :
      Asset
      → ObjectStoreLocation
      → String
      → List ℕ
      → Option String
      → Option String
      → Exec (DataPlane S) Asset
  unfolding put_and_commit
  upload reserved location caller content mime expected_checksum =
      catch (put_and_commit reserved location caller content mime expected_checksum)
        (λ e. do outcome ← cleanup_failed_upload reserved.asset_id location; raise e)

  -- `write_object`, once the reservation is granted
  unfoldable pub after_reservation :
      Capability → List ℕ → Option String → Option String → Asset → Exec (DataPlane S) Asset
  after_reservation capability content mime expected_checksum reserved = do
    location ← lift (for_asset reserved.space reserved.partition_id reserved.asset_id)
    asset ← upload reserved location capability.caller_service_id content mime expected_checksum
    used_at ← read_clock env
    on_ledger (record_successful_use capability used_at)
    pure asset

  unfoldable pub write_object :
      Capability
      → String
      → List ℕ
      → Bool
      → Option String
      → Option String
      → Option ℤ
      → Exec (DataPlane S) Asset
  write_object capability alias content mutable mime expected_checksum ttl_seconds = do
    parsed ← authorize env backend write capability alias
    reserved ← on_registry (
        reserve_asset env parsed.space parsed.partition_id
          (flags ((parsed.alias_in_partition, mutable) ∷ [])) capability.caller_service_id mime []
          inherit ttl_seconds (some (pos (length content))))
    after_reservation capability content mime expected_checksum reserved

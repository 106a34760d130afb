-- ===== src/ObjectStore/Backend.antt =====
-- src/asset_store_core/object_store.py, `ObjectStoreBackend`: the operations that the registry's
-- clients use of an object store, over the state of the store. Any of them may raise.
use prototype_cache.Prelude.{ℕ, String, List, Option}
use prototype_cache.Errors.{ok}
use prototype_cache.Exec.{Exec}
use prototype_cache.Storage.{ObjectStoreLocation}
use prototype_cache.ObjectStore.{
  LocalObjectStore, StoredObjectStat, put_object, get_object, stat_object, delete_object,
  presign_get_url,
}

pub record ObjectStoreBackend (S : Type 0) : Type 0 where
  pub put : ObjectStoreLocation → List ℕ → Exec S StoredObjectStat
  pub get : ObjectStoreLocation → Exec S (List ℕ)
  pub stat : ObjectStoreLocation → Exec S (Option StoredObjectStat)
  pub delete : ObjectStoreLocation → Exec S (Unit {0})
  pub presign : ObjectStoreLocation → ℕ → Exec S String

-- `LocalObjectStore` as a backend
abbrev pub local_backend : (List ℕ → String) → ObjectStoreBackend LocalObjectStore
local_backend digest = record {
  put = put_object digest;
  get = λ location store. (get_object location store, store);
  stat = λ location store. (ok (stat_object digest location store), store);
  delete = λ location store. (ok tt, delete_object location store);
  presign = λ location expires_in store. (presign_get_url location expires_in store, store);
}

-- ===== src/ObjectStore.antt =====
-- src/asset_store_core/object_store.py: `LocalObjectStore`. A byte is a number, and `digest` is
-- `hashlib.sha256(...).hexdigest()`.
pub mod Contents
pub mod Backend
use Prim.Native.String.{◌++◌}
use prototype_cache.Prelude.{ℕ, String, Option, none, some, List, [], ◌∷◌, length}
use prototype_cache.Prelude.Dict.{Dict, lookup, insert, erase, pair_key}
use prototype_cache.Errors.{Result, ok, err, object_not_found, presign_not_supported}
use prototype_cache.Exec.{Exec}
use prototype_cache.Storage.{ObjectStoreLocation}

pub record StoredObjectStat : Type 0 where
  pub size_bytes : ℕ
  pub checksum : String
  pub checksum_algo : String

pub record LocalObjectStore : Type 0 where
  pub objects : Dict (String × String) (List ℕ)

abbrev pub new_object_store : LocalObjectStore
new_object_store = record { objects = [] }

-- `(location.bucket, location.key)`
abbrev pub place_of : ObjectStoreLocation → String × String
place_of location = (location.bucket, location.key)

unfoldable pub delete_object : ObjectStoreLocation → LocalObjectStore → LocalObjectStore
delete_object location store = record { objects = erase (place_of location) store.objects }

unfoldable pub get_object : ObjectStoreLocation → LocalObjectStore → Result (List ℕ)
get_object location store = elim (lookup (place_of location) store.objects) [
  | none ↦ err object_not_found
  | some payload ↦ ok payload
]

-- the in-memory store has no URL that a client could reach
unfoldable pub presign_get_url : ObjectStoreLocation → ℕ → LocalObjectStore → Result String
presign_get_url location expires_in store = err presign_not_supported

module _ (digest : List ℕ → String) where
  unfoldable pub compute_checksum : List ℕ → String
  compute_checksum content = "sha256:" ++ digest content

  abbrev pub stat_of : List ℕ → StoredObjectStat
  stat_of payload = record {
    size_bytes = length payload;
    checksum = compute_checksum payload;
    checksum_algo = "sha256";
  }

  unfoldable pub put_object : ObjectStoreLocation → List ℕ → Exec LocalObjectStore StoredObjectStat
  put_object location content store =
      (ok (stat_of content), record { objects = insert (place_of location) content store.objects })

  unfoldable pub stat_object : ObjectStoreLocation → LocalObjectStore → Option StoredObjectStat
  stat_object location store = elim (lookup (place_of location) store.objects) [
    | none ↦ none
    | some payload ↦ some (stat_of payload)
  ]

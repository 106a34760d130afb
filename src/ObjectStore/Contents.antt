-- ===== src/ObjectStore/Contents.antt =====
-- What is at a place of the object store after an upload and after a deletion.
use prototype_cache.Prelude.{Bool, ℕ, String, ◌≡◌, some, List, arith, if◌then◌else◌, ◌&&◌, str_eq}
use prototype_cache.Prelude.Dict.{lookup-insert, lookup-erase, pair_key}
use prototype_cache.Errors.{ok, err, object_not_found}
use prototype_cache.Storage.{ObjectStoreLocation}
use prototype_cache.ObjectStore.{
  LocalObjectStore, StoredObjectStat, place_of, get_object, delete_object, put_object, stat_object,
}

-- The two locations have the same bucket and the same key.
abbrev pub is_same_place : ObjectStoreLocation → ObjectStoreLocation → Bool
is_same_place a b = str_eq a.bucket b.bucket && str_eq a.key b.key

-- After an upload a location of the same bucket and key gives the bytes, with the metadata that the
-- upload returned, and every location of another bucket or key gives what it gave before.
pub put_object-get_object :
    (digest : List ℕ → String) (location other : ObjectStoreLocation) (content : List ℕ)
    (store : LocalObjectStore) (stat : StoredObjectStat)
    → (put_object digest location content store).0 ≡ ok stat
    → let after = (put_object digest location content store).1 in
      (get_object other after
        ≡ (if is_same_place location other then ok content else get_object other store))
      × (stat_object digest other after
          ≡ (if is_same_place location other then some stat else stat_object digest other store))
unfolding put_object get_object stat_object
put_object-get_object digest location other content store stat h =
    let found = lookup-insert (place_of location) (place_of other) content store.objects in
    (ground (arith, found), ground (arith, found))

-- After a deletion a location of the same bucket and key gives nothing, and every location of another
-- bucket or key gives what it gave before.
pub delete_object-get_object :
    (location other : ObjectStoreLocation) (store : LocalObjectStore)
    → get_object other (delete_object location store)
      ≡ (if is_same_place location other then err object_not_found else get_object other store)
unfolding delete_object get_object
delete_object-get_object location other store =
    ground (arith, lookup-erase (place_of location) (place_of other) store.objects)

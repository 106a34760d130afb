-- ===== src/Examples/Guarded.antt =====
-- The guard's theorems at concrete inputs: a service that reads and writes one picture.
use prototype_cache.Prelude.{ℕ, ◌+◌, ◌≡◌, ◌↔◌, refl, false, none, some}
use prototype_cache.Prelude.Int.{pos}
use prototype_cache.Prelude.Text.{split, strip, is_space, join}
use prototype_cache.Prelude.Dict.{lookup, insert, text_key}
use prototype_cache.Errors.{Result, ok, err, store_failure, capability_denied}
use prototype_cache.Exec.{pure, raise}
use prototype_cache.Models.{Asset, is_resolvable}
use prototype_cache.Paths.{
  normalize_bucket, normalize_space, qualified_alias, normalize_relative_alias,
  normalize_partition_id,
}
use prototype_cache.Storage.{for_asset, build_storage_key}
use prototype_cache.Retention.{require_live, expiry_for}
use prototype_cache.ObjectStore.{
  LocalObjectStore, new_object_store, put_object, get_object, compute_checksum,
}
use prototype_cache.ObjectStore.Backend.{ObjectStoreBackend, local_backend}
use prototype_cache.Capabilities.Scope.{Capability, read, write, require, is_same_path_or_child}
use prototype_cache.Capabilities.Ledger.{assert_unused, record_successful_use}
use prototype_cache.ServicePolicy.{assert_service_bucket_allowed}
use prototype_cache.Registry.State.{Registry}
use prototype_cache.Registry.Names.{normalize_alias_specs, alias_under_partition}
use prototype_cache.Registry.Quota.{enforce_quota}
use prototype_cache.Registry.Counters.{acquire_quota}
use prototype_cache.Registry.Lifecycle.{commit_asset, record_read}
use prototype_cache.Registry.Aliases.{resolve_alias, reserve_asset}
use prototype_cache.Registry.Calls.{run, start}
use prototype_cache.Registry.Steps.Reserve.{IsFresh}
use prototype_cache.DataPlane.{DataPlane}
use prototype_cache.Guard.Alias.{ParsedAlias, parse_alias, partition_at}
use prototype_cache.Guard.Access.{
  GuardedRead, PresignedRead, authorize, resolve_for_read, read_bytes, presign_read, mint_url,
  within_lifetime,
}
use prototype_cache.Guard.Upload.{put_and_commit, upload, after_reservation, write_object}
use prototype_cache.Guard.Authorized.{IsAuthorized, authorize_iff}
use prototype_cache.Guard.Reads.{Grants, IsBounded, read_bytes-Grants, presign_read-IsBounded}
use prototype_cache.Guard.Writes.{IsStored, write_object-refused, write_object-IsStored}
use prototype_cache.Guard.Failures.{IsFenced, upload-IsFenced}
use prototype_cache.Examples.{
  process, empty, reserved_state, reserved_state-IsWellFormed, reserved_asset, uploaded, waiting,
  stored, ticket, place, picture, length_digest, holding, no_uses,
}

abbrev writer : Capability
writer = record ticket { expires_at = 100000000; caller_service_id = "admin" }

abbrev reader : Capability
reader = record writer { operation = read; capability_id = "c2"; single_use = false }

abbrev store : ObjectStoreBackend LocalObjectStore
store = local_backend length_digest

abbrev plane : Registry → LocalObjectStore → DataPlane LocalObjectStore
plane s objects = record { registry = s; store = objects; ledger = no_uses }

abbrev parsed_name : ParsedAlias
parsed_name = record {
  space = "users";
  relative = "u1/a.jpg";
  partition_id = "u1";
  alias_in_partition = "a.jpg";
  qualified = "users/u1/a.jpg";
}

authorize_iff_example :
    ((authorize process store read reader "users/u1/a.jpg" (plane uploaded holding)).0
      ≡ ok parsed_name)
    ↔ IsAuthorized process (plane uploaded holding) read reader "users/u1/a.jpg" parsed_name
authorize_iff_example =
    authorize_iff process store read reader "users/u1/a.jpg" (plane uploaded holding) parsed_name

read_back :
    (read_bytes process store reader "users/u1/a.jpg" (plane uploaded holding)).0 ≡ ok picture
unfolding read_bytes resolve_for_read authorize parse_alias partition_at require assert_unused
    assert_service_bucket_allowed resolve_alias for_asset record_read record_successful_use run
    reserve_asset commit_asset lookup strip is_space acquire_quota normalize_space
    normalize_partition_id normalize_alias_specs insert alias_under_partition qualified_alias
    enforce_quota build_storage_key expiry_for get_object put_object compute_checksum
    normalize_bucket normalize_relative_alias is_same_path_or_child require_live split join
    is_resolvable
read_back = refl

read_bytes-Grants_example :
    (found : GuardedRead) × Grants process store
      (plane uploaded holding)
      reader
      "users/u1/a.jpg"
      found
    × (get_object found.location holding ≡ ok picture)
read_bytes-Grants_example =
    read_bytes-Grants process store reader "users/u1/a.jpg" (plane uploaded holding) picture
      read_back

-- a store that hands out URLs
abbrev linking_store : ObjectStoreBackend LocalObjectStore
linking_store = record store { presign = λ location expires_in. pure "https://objects/1" }

abbrev link : PresignedRead
link = record { asset = stored; url = "https://objects/1"; expires_in = 60; expires_at = 60001010 }

linked :
    (presign_read process linking_store reader "users/u1/a.jpg" (pos 60) (plane uploaded holding)).0
    ≡ ok link
unfolding presign_read mint_url within_lifetime resolve_for_read authorize parse_alias partition_at
    require assert_unused assert_service_bucket_allowed resolve_alias for_asset record_read
    record_successful_use run reserve_asset commit_asset lookup strip is_space acquire_quota
    normalize_space normalize_partition_id normalize_alias_specs insert alias_under_partition
    qualified_alias enforce_quota build_storage_key expiry_for get_object put_object
    compute_checksum normalize_bucket normalize_relative_alias is_same_path_or_child require_live
    split join is_resolvable
linked = refl

presign_read-IsBounded_example :
    (reader.single_use ≡ false)
    × (asked : ℕ) × (pos 60 ≡ pos asked)
    × (found : GuardedRead) × Grants process linking_store
        (plane uploaded holding)
        reader
        "users/u1/a.jpg"
        found
    × (stored ≡ found.asset)
    × IsBounded process linking_store (uploaded.readings + 3) reader asked found 60
presign_read-IsBounded_example =
    presign_read-IsBounded process linking_store reader "users/u1/a.jpg" (pos 60)
      (plane uploaded holding) link linked

abbrev written : Asset
written = record stored {
  reserved_bytes = none;
  size_bytes = some 2;
  checksum = some "sha256:more";
  owner_service_id = "admin";
  created_at = 1002;
  updated_at = 1005;
}

wrote :
    (write_object process store writer "users/u1/a.jpg" picture false none none none
      (plane empty new_object_store)).0
    ≡ ok written
unfolding write_object after_reservation upload put_and_commit authorize parse_alias partition_at
    require assert_unused assert_service_bucket_allowed resolve_alias for_asset record_read
    record_successful_use run reserve_asset commit_asset lookup strip is_space acquire_quota
    normalize_space normalize_partition_id normalize_alias_specs insert alias_under_partition
    qualified_alias enforce_quota build_storage_key expiry_for get_object put_object
    compute_checksum normalize_bucket normalize_relative_alias is_same_path_or_child require_live
    split join is_resolvable
wrote = refl

unused_name : IsFresh process empty
unfolding lookup
unused_name = refl

write_object-IsStored_example :
    ((parsed : ParsedAlias) × IsAuthorized process
        (plane empty new_object_store)
        write
        writer
        "users/u1/a.jpg"
        parsed)
    × IsStored process store picture written
        (write_object process store writer "users/u1/a.jpg" picture false none none none
          (plane empty new_object_store)).1.registry
write_object-IsStored_example =
    write_object-IsStored process store 10 writer "users/u1/a.jpg" picture false none none none
      (plane empty new_object_store) written start unused_name wrote

not_for_writing :
    (authorize process store write reader "users/u1/a.jpg" (plane uploaded holding)).0
    ≡ err capability_denied
unfolding authorize parse_alias partition_at require assert_unused assert_service_bucket_allowed
    resolve_alias for_asset record_read record_successful_use run reserve_asset commit_asset lookup
    strip is_space acquire_quota normalize_space normalize_partition_id normalize_alias_specs insert
    alias_under_partition qualified_alias enforce_quota build_storage_key expiry_for get_object
    put_object compute_checksum normalize_bucket normalize_relative_alias is_same_path_or_child
    require_live split join is_resolvable
not_for_writing = refl

abbrev refused : Result Asset × DataPlane LocalObjectStore
refused =
    write_object process store reader "users/u1/a.jpg" picture false none none none
      (plane uploaded holding)

write_object-refused_example :
    (refused.0 ≡ err capability_denied)
    × (refused.1.store ≡ holding)
    × (refused.1.registry ≡ record uploaded { readings = refused.1.registry.readings })
write_object-refused_example =
    write_object-refused process store reader "users/u1/a.jpg" picture false none none none
      (plane uploaded holding) capability_denied not_for_writing

-- a store that takes nothing
abbrev full_store : ObjectStoreBackend LocalObjectStore
full_store = record store { put = λ location content. raise store_failure }

put_failed :
    (put_and_commit process full_store waiting place "admin" picture none none
      (plane reserved_state new_object_store)).0
    ≡ err store_failure
unfolding put_and_commit authorize parse_alias partition_at require assert_unused
    assert_service_bucket_allowed resolve_alias for_asset record_read record_successful_use run
    reserve_asset commit_asset lookup strip is_space acquire_quota normalize_space
    normalize_partition_id normalize_alias_specs insert alias_under_partition qualified_alias
    enforce_quota build_storage_key expiry_for get_object put_object compute_checksum
    normalize_bucket normalize_relative_alias is_same_path_or_child require_live split join
    is_resolvable
put_failed = refl

upload-IsFenced_example :
    ((upload process full_store waiting place "admin" picture none none
        (plane reserved_state new_object_store)).0
      ≡ err store_failure)
    × IsFenced process full_store "asset-0" place
        (put_and_commit process full_store waiting place "admin" picture none none
          (plane reserved_state new_object_store)).1.store
        (upload process full_store waiting place "admin" picture none none
          (plane reserved_state new_object_store)).1
upload-IsFenced_example =
    upload-IsFenced process full_store "asset-0" place waiting refl refl refl refl "admin" picture
      none none (plane reserved_state new_object_store) store_failure reserved_state-IsWellFormed
      reserved_asset put_failed

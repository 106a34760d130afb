-- ===== src/Storage.antt =====
-- src/asset_store_core/storage.py: where the bytes of an asset lie in the object store.
use prototype_cache.Prelude.{String, str_eq}
use prototype_cache.Prelude.Text.{strip, slashed, is_space}
use prototype_cache.Errors.{Result, ok, validation, raise_if, ◌>>=◌, ◌>>◌}
use prototype_cache.Paths.{normalize_bucket, normalize_partition_id}

unfoldable pub build_storage_key : String → String → Result String
unfolding normalize_partition_id strip is_space
build_storage_key partition_id asset_id = do
  pid ← normalize_partition_id partition_id
  let aid = strip is_space asset_id
  raise_if (str_eq aid "") validation
  ok (slashed pid (slashed "assets" aid))

pub record ObjectStoreLocation : Type 0 where
  pub bucket : String
  pub key : String

unfoldable pub for_asset : String → String → String → Result ObjectStoreLocation
unfolding normalize_bucket build_storage_key
for_asset space partition_id asset_id = do
  bucket ← normalize_bucket space
  key ← build_storage_key partition_id asset_id
  ok (record { bucket = bucket; key = key })

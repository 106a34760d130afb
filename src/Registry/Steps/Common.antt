-- ===== src/Registry/Steps/Common.antt =====
-- What the proofs about single operations share.
use prototype_cache.Prelude.{String, ◌≡◌, ◌≢◌, true, false, some, arith}
use prototype_cache.Prelude.Dict.{lookup, text_key}
use prototype_cache.Models.{Asset, AssetState, available, state_eq}
use prototype_cache.Registry.State.{Registry}
use prototype_cache.Registry.Accounts.{IsPlaced, IsWellFormed, SameCharge}

pub available_of : (x : AssetState) → state_eq x available ≡ true → x ≡ available
available_of x h = ground arith

pub not_available_of : (x : AssetState) → state_eq x available ≡ false → x ≢ available
not_available_of x h e = ground arith

-- The names of an asset of a well-formed registry, in a state with the same counters.
pub IsPlaced-in :
    {s : Registry} (t : Registry) {id : String} {a : Asset}
    → (w : IsWellFormed s) → (found : lookup id s.assets ≡ some a)
    → t.partition_quotas ≡ s.partition_quotas
    → t.bucket_quotas ≡ s.bucket_quotas
    → let names = (w.filed id a found).names in IsPlaced t a.space a.partition_id names.b names.q
IsPlaced-in t {id} {a} w found p q = record {
  keyed = rw (p, q) w.keyed;
  bucket = (w.filed id a found).names.bucket;
  partition = (w.filed id a found).names.partition;
}

-- A version that differs in what no account depends on.
pub unchanged :
    (a b : Asset)
    → b.asset_id ≡ a.asset_id
    → b.space ≡ a.space
    → b.partition_id ≡ a.partition_id
    → b.storage_key ≡ a.storage_key
    → b.state ≡ a.state
    → b.size_bytes ≡ a.size_bytes
    → b.payload_deleted_at ≡ a.payload_deleted_at
    → SameCharge a b
unchanged a b i s p k x n d = record {
  identity = record { asset_id = i; space = s; partition_id = p; storage_key = k };
  state = x;
  size_bytes = n;
  payload_deleted_at = d;
}

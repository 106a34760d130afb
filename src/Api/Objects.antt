-- ===== src/Api/Objects.antt =====
-- `write_object` and `read_object`. An upload may wait for its bytes while other requests are
-- served, so `write_object` is also given as its two parts: up to the lease of the gate, and from
-- there on. The guard's write, which `run_work_until_complete` runs in a worker thread to its end
-- also where the client goes away, is one step here, over the data plane that it finds; what other
-- threads do to the data plane is an event of its own (Api/Process).
pub mod Received
use prototype_cache.Prelude.{
  ℕ, ◌+◌, String, Bool, not, ◌&&◌, ◌||◌, Option, none, some, List, [], ◌∷◌, ◌++◌, str_eq, leb, ltb,
  length, true, false,
}
use prototype_cache.Prelude.Int.{ℤ, pos, to_ℕ?}
use prototype_cache.Errors.{
  Result, ok, err, validation, request_validation, upload_too_large, client_disconnect, or_raise,
  raise_if,
}
use prototype_cache.Exec.{Exec, pure, raise, lift, or_fail, raise_when, if_else, ◌>>=◌, ◌>>◌}
use prototype_cache.Capabilities.Scope.{Capability}
use prototype_cache.Admission.{begin_lease, end_lease}
use prototype_cache.Guard.Access.{PresignedRead, authorize_write, read_bytes, presign_read}
use prototype_cache.Guard.Upload
use prototype_cache.Api.State.{Service, App, on_plane, on_uploads}
use prototype_cache.Api.Identity.{require_capability}
use prototype_cache.Api.Assets.{is_positive, observe_bucket_fill}
use prototype_cache.Api.Schemas.{AssetOut, from_asset, PresignedUrlOut}

-- A request to upload: its path, its query, and the headers that are read. A length is `none` where
-- the header is missing, and `some none` where it is no integer.
pub record WriteRequest : Type 0 where
  pub authorization : String
  pub alias : String
  pub mutable : Bool
  pub expected_checksum : Option String
  pub ttl_seconds : Option ℤ
  pub content_length : Option (Option ℤ)
  pub content_type : Option String

pub data ObjectOut : Type 0 where
  content : List ℕ → ObjectOut
  presigned : PresignedUrlOut → ObjectOut

-- the test of the declared length
unfoldable pub check_length : ℕ → Option (Option ℤ) → Result (Unit {0})
check_length max_upload_bytes none = ok tt
check_length max_upload_bytes (some none) = err validation
check_length max_upload_bytes (some (some declared)) = elim (to_ℕ? declared) [
  | none ↦ err validation
  | some size ↦ raise_if (ltb max_upload_bytes size) upload_too_large
]

-- the loop over the chunks of the body
unfoldable pub receive : ℕ → List (List ℕ) → List ℕ → Result (List ℕ)
receive max_upload_bytes [] received = ok received
receive max_upload_bytes (chunk ∷ rest) received =
    elim (ltb max_upload_bytes (length received + length chunk)) [
      | true ↦ err upload_too_large
      | false ↦ receive max_upload_bytes rest (received ++ chunk)
    ]

module _ {S A B : Type 0} where
  -- `try: m ... finally: n`
  abbrev pub finally : Exec (App S) A → Exec (App S) B → Exec (App S) A
  finally m n w = let r = m w in (r.0, (n r.1).1)

module _ {S : Type 0} (service : Service S) where
  -- what is tested before the lease
  unfoldable pub check_upload : WriteRequest → Exec (App S) Capability
  check_upload request = do
    capability ← require_capability service request.authorization
    raise_when (not (is_positive request.ttl_seconds)) request_validation
    parsed ← on_plane (authorize_write service.env service.store capability request.alias)
    lift (check_length service.max_upload_bytes request.content_length)
    pure capability

  -- up to the lease
  unfoldable pub admit_upload : WriteRequest → Exec (App S) Capability
  unfolding check_upload
  admit_upload request = do
    capability ← check_upload request
    on_uploads begin_lease
    pure capability

  -- the block under the lease
  unfoldable pub store_upload : WriteRequest → Capability → List (List ℕ) → Exec (App S) AssetOut
  store_upload request capability chunks = do
    received ← lift (receive service.max_upload_bytes chunks [])
    asset ← on_plane (
        Upload.write_object service.env service.store capability request.alias received
          request.mutable request.content_type request.expected_checksum request.ttl_seconds)
    observe_bucket_fill service asset.space
    pure (from_asset asset)

  -- from the lease to its release
  unfoldable pub finish_upload : WriteRequest → Capability → List (List ℕ) → Exec (App S) AssetOut
  unfolding store_upload
  finish_upload request capability chunks =
      finally (store_upload request capability chunks) (on_uploads end_lease)

  -- the same, where the client goes away after these chunks
  unfoldable pub break_off_upload : List (List ℕ) → Exec (App S) AssetOut
  break_off_upload chunks =
      finally
        (lift (receive service.max_upload_bytes chunks []) >>= λ received. raise client_disconnect)
        (on_uploads end_lease)

  unfoldable pub put_object : WriteRequest → List (List ℕ) → Exec (App S) AssetOut
  unfolding admit_upload finish_upload
  put_object request chunks = do
    capability ← admit_upload request
    finish_upload request capability chunks

  abbrev pub url_of : String → PresignedRead → ObjectOut
  url_of alias read = presigned (record {
    alias = alias;
    asset_id = read.asset.asset_id;
    url = read.url;
    expires_in = read.expires_in;
    expires_at = read.expires_at;
    size_bytes = read.asset.size_bytes;
    checksum = read.asset.checksum;
  })

  unfoldable pub read_presigned : Capability → String → ℕ → Exec (App S) ObjectOut
  read_presigned capability alias expires_in = do
    read ← on_plane (presign_read service.env service.store capability alias (pos expires_in))
    pure (url_of alias read)

  unfoldable pub read_proxied : Capability → String → Exec (App S) ObjectOut
  read_proxied capability alias = do
    bytes ← on_plane (read_bytes service.env service.store capability alias)
    pure (content bytes)

  -- the branches of `mode`
  unfoldable pub read_in_mode : Capability → String → String → ℕ → Exec (App S) ObjectOut
  unfolding read_presigned read_proxied
  read_in_mode capability alias mode expires_in =
      if_else (str_eq mode "presign") (read_presigned capability alias expires_in)
        (if_else (str_eq mode "proxy") (read_proxied capability alias) (raise validation))

  unfoldable pub read_object : String → String → String → ℕ → Exec (App S) ObjectOut
  unfolding read_in_mode
  read_object authorization alias mode expires_in = do
    capability ← require_capability service authorization
    raise_when (not (leb 1 expires_in && leb expires_in 3600)) request_validation
    read_in_mode capability alias mode expires_in

-- ===== src/Api/Serving/Transfers.antt =====
-- Uploads and downloads.
use prototype_cache.Prelude.{
  inl, inr, ℕ, ◌+◌, ◌-◌, ◌<◌, String, ◌≡◌, refl, arith, List, [], not, ◌&&◌, leb, str_eq,
}
use prototype_cache.Prelude.Int.{pos}
use prototype_cache.Errors.{
  Result-cases, ok, err, Error, capability_denied, validation, request_validation,
}
use prototype_cache.Exec.{lift, raise_when}
use prototype_cache.Capabilities.Scope.{Capability}
use prototype_cache.Admission.{begin_lease, end_lease}
use prototype_cache.Guard.Access.{authorize_write, read_bytes, presign_read}
use prototype_cache.Guard.Upload
use prototype_cache.Api.State.{Service, App, on_plane, on_capabilities, now}
use prototype_cache.Api.Identity.{credential, require_capability}
use prototype_cache.Api.Assets.{observe_bucket_fill}
use prototype_cache.Api.Objects.{
  WriteRequest, check_length, receive, check_upload, admit_upload, store_upload, finish_upload,
  read_object, read_in_mode, read_presigned, read_proxied, url_of, content, break_off_upload,
}
use prototype_cache.Api.Serving.{
  Served, Served-Composes, Serves, Serves-bind, Serves-returning, Serves-raise_when, Serves-pure,
  Serves-or_fail, Serves-lift, Serves-if_else, Serves-on_plane, Serves-now, Serves-get,
  Serves-raise,
}
use prototype_cache.Api.Serving.Services.{observe_bucket_fill-Serves}

module _ {S : Type 0} (service : Service S) where
  Served-refl : (w : App S) → Served service w w
  Served-refl w = (Served-Composes service).stay w

  require_capability-Serves :
      (authorization : String) → Serves service (require_capability service authorization)
  unfolding require_capability
  require_capability-Serves authorization =
      let token = (credential authorization).1 in
      Serves-bind service (raise_when _ _) _ (Serves-raise_when service _ _) λ u.
        Serves-bind service (now service) _ (Serves-now service) λ at.
          Serves-bind service (on_capabilities (prototype_cache.Capabilities.Store.get token at)) _
            (Serves-get service token at)
            λ capability. Serves-or_fail service capability capability_denied

  check_upload-Serves : (request : WriteRequest) → Serves service (check_upload service request)
  unfolding check_upload
  check_upload-Serves request =
      Serves-bind service (require_capability service request.authorization) _
        (require_capability-Serves request.authorization)
        λ capability. Serves-bind service (raise_when _ _) _ (Serves-raise_when service _ _) λ u.
          Serves-bind service
            (on_plane (authorize_write service.env service.store capability request.alias)) _
            (Serves-on_plane service _)
            λ parsed.
              Serves-bind service
                (lift (check_length service.max_upload_bytes request.content_length)) _
                (Serves-lift service _) λ v. Serves-pure service capability

  read_in_mode-Serves :
      (cap : Capability) (alias mode : String) (expires_in : ℕ)
      → Serves service (read_in_mode service cap alias mode expires_in)
  unfolding read_in_mode read_presigned read_proxied
  read_in_mode-Serves cap alias mode expires_in =
      Serves-if_else service (str_eq mode "presign") (read_presigned service cap alias expires_in) _
        (Serves-returning service
          (on_plane (presign_read service.env service.store cap alias (pos expires_in)))
          (url_of service alias) (Serves-on_plane service _))
        (Serves-if_else service (str_eq mode "proxy") (read_proxied service cap alias) _
          (Serves-returning service (on_plane (read_bytes service.env service.store cap alias))
            content (Serves-on_plane service _))
          (Serves-raise service validation))

  pub read_object-Serves :
      (authorization alias mode : String) (expires_in : ℕ)
      → Serves service (read_object service authorization alias mode expires_in)
  unfolding read_object
  read_object-Serves authorization alias mode expires_in =
      Serves-bind service (require_capability service authorization) _
        (require_capability-Serves authorization)
        λ capability.
          Serves-bind service
            (raise_when (not (leb 1 expires_in && leb expires_in 3600)) request_validation) _
            (Serves-raise_when service _ _)
            λ u. read_in_mode-Serves capability alias mode expires_in

  -- A lease is a matter of the gate alone.
  admit_upload_aside :
      (request : WriteRequest) (w : App S)
      → (admit_upload service request w).1.capabilities
        ≡ (check_upload service request w).1.capabilities
  unfolding admit_upload begin_lease
  admit_upload_aside request w = ground arith

  admitted :
      (request : WriteRequest) (w : App S)
      → Served service w (record ((admit_upload service request w).1) { uploads = w.uploads })
  admitted request w =
      let done = (check_upload-Serves request).at w in
      let capabilities = admit_upload_aside request w in
      record {
        held = rw capabilities done.held;
        capacity = rw capabilities done.capacity;
        gate = refl;
      }

  -- What an upload does to the gate: a lease is taken exactly if it is admitted, and then one was free.
  pub admit_upload-Served :
      (request : WriteRequest) (w : App S) (cap : Capability)
      → (admit_upload service request w).0 ≡ ok cap
      → let after = (admit_upload service request w).1 in
        Served service w (record after { uploads = w.uploads })
        × (w.uploads.active < w.uploads.limit)
        × (after.uploads ≡ record w.uploads { active = w.uploads.active + 1 })
  unfolding admit_upload begin_lease
  admit_upload-Served request w cap h =
      let gate = ((check_upload-Serves request).at w).gate in
      (admitted request w, ground arith, ground arith)

  pub admit_upload_refused :
      (request : WriteRequest) (w : App S) (e : Error)
      → (admit_upload service request w).0 ≡ err e
      → let after = (admit_upload service request w).1 in
        Served service w (record after { uploads = w.uploads }) × (after.uploads ≡ w.uploads)
  unfolding admit_upload begin_lease
  admit_upload_refused request w e h =
      let gate = ((check_upload-Serves request).at w).gate in (admitted request w, ground arith)

  store_upload-Serves :
      (request : WriteRequest) (cap : Capability) (chunks : List (List ℕ))
      → Serves service (store_upload service request cap chunks)
  unfolding store_upload
  store_upload-Serves request cap chunks =
      Serves-bind service (lift (receive service.max_upload_bytes chunks [])) _
        (Serves-lift service _)
        λ received.
          Serves-bind service
            (on_plane (
              Upload.write_object service.env service.store cap request.alias received
                request.mutable request.content_type request.expected_checksum request.ttl_seconds))
            _ (Serves-on_plane service _)
            λ asset.
              Serves-returning service (observe_bucket_fill service asset.space) _
                (observe_bucket_fill-Serves service asset.space)

  -- An upload that ends gives its lease back, stored or not.
  pub finish_upload-Served :
      (request : WriteRequest) (cap : Capability) (chunks : List (List ℕ)) (w : App S)
      → let after = (finish_upload service request cap chunks w).1 in
        Served service w (record after { uploads = w.uploads })
        × (after.uploads ≡ record w.uploads { active = w.uploads.active - 1 })
  unfolding finish_upload end_lease
  finish_upload-Served request cap chunks w =
      let done = (store_upload-Serves request cap chunks).at w in
      (record { held = done.held; capacity = done.capacity; gate = refl }, rw done.gate refl)

  pub break_off_upload-Served :
      (chunks : List (List ℕ)) (w : App S)
      → let after = (break_off_upload service chunks w).1 in
        Served service w (record after { uploads = w.uploads })
        × (after.uploads ≡ record w.uploads { active = w.uploads.active - 1 })
  unfolding break_off_upload end_lease
  break_off_upload-Served chunks w =
      elim (Result-cases (receive service.max_upload_bytes chunks [])) [
        | inl (received, h) ↦ rw (h, break_off_upload) (Served-refl w, refl)
        | inr (e, h) ↦ rw (h, break_off_upload) (Served-refl w, refl)
      ]

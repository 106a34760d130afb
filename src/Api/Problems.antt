-- ===== src/Api/Problems.antt =====
-- src/asset_store_core/api/errors.py: the status of a response to an error, and its `Retry-After`.
use prototype_cache.Prelude.{ℕ, Option, none, some}
use prototype_cache.Errors

-- the status; what has no handler is an internal error
unfoldable pub status_of : Errors.Error → ℕ
status_of Errors.validation = 400
status_of Errors.upload_too_large = 413
status_of Errors.service_auth = 401
status_of Errors.capability_denied = 403
status_of Errors.capability_already_consumed = 403
status_of Errors.capability_capacity = 503
status_of (Errors.capability_rate seconds) = 429
status_of Errors.work_capacity = 503
status_of Errors.alias_not_found = 404
status_of Errors.asset_not_found = 404
status_of Errors.asset_expired = 410
status_of Errors.asset_deleted = 404
status_of Errors.capacity_exceeded = 503
status_of Errors.registry_unavailable = 503
status_of Errors.object_not_found = 404
status_of Errors.alias_conflict = 409
status_of Errors.alias_immutable = 409
status_of Errors.checksum_mismatch = 409
status_of Errors.invalid_state_transition = 409
status_of (Errors.quota_exceeded scope) = 413
status_of Errors.presign_not_supported = 501
status_of Errors.request_validation = 422
status_of _ = 500

unfoldable pub retry_after : Errors.Error → Option ℕ
retry_after (Errors.capability_rate seconds) = some seconds
retry_after Errors.capacity_exceeded = some 60
retry_after Errors.registry_unavailable = some 1
retry_after Errors.capability_capacity = some 1
retry_after Errors.work_capacity = some 1
retry_after _ = none

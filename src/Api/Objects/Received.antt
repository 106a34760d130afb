-- ===== src/Api/Objects/Received.antt =====
-- Which bytes of an upload are taken.
use mathlib.Core.List.{append_assoc, append-nil}
use prototype_cache.Prelude.{
  ℕ, ◌+◌, ◌-◌, ◌≤◌, ◌<◌, ◌≡◌, refl, ◌∙◌, ap, arith, List, [], ◌∷◌, ◌++◌, length, length-append, ltb,
  if◌then◌else◌, false, inl, inr, Bool-cases,
}
use prototype_cache.Errors.{ok, err, upload_too_large}
use prototype_cache.Capabilities.Scope.{Capability}
use prototype_cache.Admission.{end_lease}
use prototype_cache.Api.State.{Service, App}
use prototype_cache.Api.Objects.{WriteRequest, receive, store_upload, finish_upload}

-- The whole body.
abbrev pub body : List (List ℕ) → List ℕ
body [] = []
body (chunk ∷ rest) = chunk ++ body rest

receive-fits :
    (limit : ℕ) (chunks : List (List ℕ)) (received : List ℕ)
    → length received + length (body chunks) ≤ limit
    → receive limit chunks received ≡ ok (received ++ body chunks)
unfolding receive
receive-fits limit [] received h = rw (append-nil received) refl
receive-fits limit (chunk ∷ rest) received h =
    let whole = length-append chunk (body rest) in
    let more = length-append received chunk in
    let fits : ltb limit (length received + length chunk) ≡ false = ground arith in
    rw (fits, receive)
      (receive-fits limit rest (received ++ chunk) (omega arith)
        ∙ ap ok (append_assoc received chunk (body rest)))

receive-exceeds :
    (limit : ℕ) (chunks : List (List ℕ)) (received : List ℕ)
    → length received ≤ limit
    → limit < length received + length (body chunks)
    → receive limit chunks received ≡ err upload_too_large
unfolding receive
receive-exceeds limit [] received h k = absurd (omega arith)
receive-exceeds limit (chunk ∷ rest) received h k =
    let whole = length-append chunk (body rest) in
    let more = length-append received chunk in
    elim (Bool-cases (ltb limit (length received + length chunk))) [
      | inl over ↦ rw (over, receive) refl
      | inr under ↦
          let fits : length received + length chunk ≤ limit = ground arith in
          rw (under, receive)
            (receive-exceeds limit rest (received ++ chunk) (omega arith) (omega arith))
    ]

-- An upload with more bytes than the configured bound, in chunks of whatever sizes, is refused
-- with the error for that, changes nothing and gives its lease back; any other upload does what it
-- would do if its whole body came as one chunk.
pub finish_upload-body :
    {S : Type 0} (service : Service S) (request : WriteRequest) (cap : Capability)
    (chunks : List (List ℕ)) (w : App S)
    → finish_upload service request cap chunks w ≡ (
        if ltb service.max_upload_bytes (length (body chunks))
        then (
          err upload_too_large,
          record w { uploads = record w.uploads { active = w.uploads.active - 1 } },
        )
        else finish_upload service request cap (body chunks ∷ []) w)
unfolding finish_upload store_upload end_lease
finish_upload-body service request cap chunks w =
    let bytes = body chunks in
    let all : body (bytes ∷ []) ≡ bytes = append-nil bytes in
    elim (Bool-cases (ltb service.max_upload_bytes (length bytes))) [
      | inl large ↦
          rw
            (large, receive-exceeds service.max_upload_bytes chunks [] (omega arith) (ground arith))
            refl
      | inr small ↦
          let fits : length bytes ≤ service.max_upload_bytes = ground arith in
          let first = receive-fits service.max_upload_bytes chunks [] (omega arith) in
          let second : receive service.max_upload_bytes (bytes ∷ []) [] ≡ ok bytes =
            receive-fits service.max_upload_bytes (bytes ∷ []) [] (rw all (omega arith))
            ∙ ap ok all in
          rw (small, first, second) refl
    ]

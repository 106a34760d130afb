-- ===== src/Api/Process/Advance.antt =====
-- What one event does to the parts of the process.
use prototype_cache.Prelude.{
  ◌-◌, ℕ, zero, suc, ◌+◌, ◌≤◌, String, ◌≡◌, refl, sym, ◌∙◌, arith, some, List, [], ◌∷◌, length, inl,
  inr, Option-cases,
}
use prototype_cache.Errors.{Result-cases}
use prototype_cache.Api.State.{Service, App}
use prototype_cache.Api.Requests.{
  Request, reserve, commit, resolve, mint, annotate, expire, delete, detach, detach_mutable, rebind,
  change_eviction_policy, put_partition_quota, read_partition_quota, put_bucket_quota,
  read_bucket_quota, list_audit, mutate, quota, listing, inspect, audit, preview, bulk, serve,
}
use prototype_cache.Api.Objects.{admit_upload, WriteRequest}
use prototype_cache.Api.Serving.{IsSound, Served, Serves-returning}
use prototype_cache.Api.Serving.Services.{reserve-Serves, commit-Serves, resolve-Serves}
use prototype_cache.Api.Serving.Minting.{mint_capability-Serves}
use prototype_cache.Api.Serving.Admins as Admins
use prototype_cache.Api.Serving.Consoles.{
  mutate-Serves, quota-Serves, listing-Serves, inspect-Serves, audit-Serves, preview-Serves,
  bulk-Serves,
}
use prototype_cache.Api.Serving.Transfers.{
  read_object-Serves, admit_upload-Served, admit_upload_refused, finish_upload-Served,
  break_off_upload-Served,
}
use prototype_cache.Capabilities.Scope.{Capability}
use prototype_cache.Api.Process.{
  Process, Event, request, download, begin, finish, break_off, pick, begun, advance, disturb,
}

module _ {S : Type 0} (service : Service S) (authorization : String) where
  serve-Served :
      (asked : Request) (p : Process S)
      → Served service p.app (serve service authorization asked p.app).1
  unfolding serve
  serve-Served (reserve a) p =
      (Serves-returning service _ _ (reserve-Serves service authorization a)).at p.app
  serve-Served (commit a b) p =
      (Serves-returning service _ _ (commit-Serves service authorization a b)).at p.app
  serve-Served (resolve a b) p =
      (Serves-returning service _ _ (resolve-Serves service authorization a b)).at p.app
  serve-Served (mint a) p =
      (Serves-returning service _ _ (mint_capability-Serves service authorization a)).at p.app
  serve-Served (annotate a b c d) p =
      (Serves-returning service _ _ (Admins.annotate_asset-Serves service authorization a b c d)).at
        p.app
  serve-Served (expire a b) p =
      (Serves-returning service _ _ (Admins.expire-Serves service authorization a b)).at p.app
  serve-Served (delete a b) p =
      (Serves-returning service _ _ (Admins.delete-Serves service authorization a b)).at p.app
  serve-Served (detach a b c) p =
      (Serves-returning service _ _ (Admins.detach-Serves service authorization a b c)).at p.app
  serve-Served (detach_mutable a b c) p =
      (Serves-returning service _ _ (Admins.detach_mutable-Serves service authorization a b c)).at
        p.app
  serve-Served (rebind a b c d) p =
      (Serves-returning service _ _ (Admins.rebind-Serves service authorization a b c d)).at p.app
  serve-Served (change_eviction_policy a b c) p =
      (Serves-returning service _ _
          (Admins.change_eviction_policy-Serves service authorization a b c)).at
        p.app
  serve-Served (put_partition_quota a b c d e f) p =
      (Serves-returning service _ _
          (Admins.put_partition_quota-Serves service authorization a b c d e f)).at
        p.app
  serve-Served (read_partition_quota a b) p =
      (Serves-returning service _ _
          (Admins.read_partition_quota-Serves service authorization a b)).at
        p.app
  serve-Served (put_bucket_quota a b c d e) p =
      (Serves-returning service _ _
          (Admins.put_bucket_quota-Serves service authorization a b c d e)).at
        p.app
  serve-Served (read_bucket_quota a) p =
      (Serves-returning service _ _ (Admins.read_bucket_quota-Serves service authorization a)).at
        p.app
  serve-Served (list_audit a b c d) p =
      (Serves-returning service _ _ (Admins.list_audit-Serves service authorization a b c d)).at
        p.app
  serve-Served (mutate a b) p =
      (Serves-returning service _ _ (mutate-Serves service authorization a b)).at p.app
  serve-Served (quota a b c d e) p =
      (Serves-returning service _ _ (quota-Serves service authorization a b c d e)).at p.app
  serve-Served (listing a) p =
      (Serves-returning service _ _ (listing-Serves service authorization a)).at p.app
  serve-Served (inspect a) p =
      (Serves-returning service _ _ (inspect-Serves service authorization a)).at p.app
  serve-Served (audit a) p =
      (Serves-returning service _ _ (audit-Serves service authorization a)).at p.app
  serve-Served (preview a) p =
      (Serves-returning service _ _ (preview-Serves service authorization a)).at p.app
  serve-Served (bulk a b) p =
      (Serves-returning service _ _ (bulk-Serves service authorization a b)).at p.app

module _ {A : Type 0} where
  length-pick :
      (n : ℕ) (xs : List A) (a : A) (others : List A)
      → pick n xs ≡ some (a, others)
      → length xs ≡ length others + 1
  unfolding pick
  length-pick n [] a others h = cc
  length-pick zero (x ∷ xs) a others h = ground arith
  length-pick (suc n) (x ∷ xs) a others h = elim (Option-cases (pick n xs)) [
    | inl absent ↦ absurd (ground arith)
    | inr ((b, rest), found) ↦
        let shorter = length-pick n xs b rest found in
        let same : x ∷ rest ≡ others = ground arith in rw (sym same) (omega arith)
  ]

module _ {S : Type 0} (service : Service S) where
  -- The gate counts the uploads in flight, and they are at most its limit.
  abbrev pub IsCounted : Process S → Type 0
  IsCounted p =
      (p.app.uploads.active ≡ length p.in_flight) × (length p.in_flight ≤ p.app.uploads.limit)

  pub record Advanced (p q : Process S) : Type 0 where
    pub held : IsSound service p.app.capabilities → IsSound service q.app.capabilities
    pub capacity : q.app.capabilities.max_capabilities ≡ p.app.capabilities.max_capabilities
    pub limit : q.app.uploads.limit ≡ p.app.uploads.limit
    pub counted : IsCounted p → IsCounted q

  pub Advanced-refl : (p : Process S) → Advanced p p
  Advanced-refl p = record { held = λ h. h; capacity = refl; limit = refl; counted = λ c. c }

  pub Advanced-trans : (p q r : Process S) → Advanced p q → Advanced q r → Advanced p r
  Advanced-trans p q r h k = record {
    held = λ s. k.held (h.held s);
    capacity = k.capacity ∙ h.capacity;
    limit = k.limit ∙ h.limit;
    counted = λ c. k.counted (h.counted c);
  }

  -- An event that leaves the gate alone.
  Served-Advanced :
      (p : Process S) (w : App S) → Served service p.app w → Advanced p (record p { app = w })
  Served-Advanced p w h = record {
    held = h.held;
    capacity = h.capacity;
    limit = rw h.gate refl;
    counted = λ c. rw h.gate c;
  }

  -- The end of an upload that held a lease.
  released-Advanced :
      (p : Process S) (n : ℕ) (entry : WriteRequest × Capability)
      (others : List (WriteRequest × Capability)) (w : App S)
      → pick n p.in_flight ≡ some (entry, others)
      → Served service p.app (record w { uploads = p.app.uploads })
        × (w.uploads ≡ record p.app.uploads { active = p.app.uploads.active - 1 })
      → Advanced p (record { app = w; in_flight = others })
  released-Advanced p n entry others w found (done, given_back) =
      let shorter = length-pick n p.in_flight entry others found in
      record {
        held = done.held;
        capacity = done.capacity;
        limit = rw given_back refl;
        counted = λ c. rw given_back (omega arith, omega arith);
      }

  pub advance-Advanced : (e : Event S) (p : Process S) → Advanced p (advance service e p)
  unfolding advance begun
  advance-Advanced (request authorization asked) p =
      Served-Advanced p _ (serve-Served service authorization asked p)
  advance-Advanced (download authorization alias mode expires_in) p =
      Served-Advanced p _
        ((read_object-Serves service authorization alias mode expires_in).at p.app)
  advance-Advanced (begin upload) p =
      let w = (admit_upload service upload p.app).1 in
      elim (Result-cases (admit_upload service upload p.app).0) [
        | inl (cap, admitted) ↦
            let (done, free, taken) = admit_upload-Served service upload p.app cap admitted in
            rw admitted (record {
              held = done.held;
              capacity = done.capacity;
              limit = rw taken refl;
              counted = λ c. rw taken (omega arith, omega arith);
            })
        | inr (e, refused) ↦
            let (done, still) = admit_upload_refused service upload p.app e refused in
            rw refused (record {
              held = done.held;
              capacity = done.capacity;
              limit = rw still refl;
              counted = λ c. rw still c;
            })
      ]
  advance-Advanced (finish n chunks) p = elim (Option-cases (pick n p.in_flight)) [
    | inl absent ↦ rw (absent, advance) (Advanced-refl p)
    | inr (((upload, cap), others), found) ↦
        rw (found, advance)
          (released-Advanced p n (upload, cap) others _ found
            (finish_upload-Served service upload cap chunks p.app))
  ]
  advance-Advanced (break_off n chunks) p = elim (Option-cases (pick n p.in_flight)) [
    | inl absent ↦ rw (absent, advance) (Advanced-refl p)
    | inr ((entry, others), found) ↦
        rw (found, advance)
          (released-Advanced p n entry others _ found
            (break_off_upload-Served service chunks p.app))
  ]
  advance-Advanced (disturb plane) p = record {
    held = λ h. h;
    capacity = refl;
    limit = refl;
    counted = λ c. c;
  }

-- ===== src/ServicePolicy/Allowed.antt =====
-- How the table of reads and the table of writes agree.
use prototype_cache.Prelude.{
  String, ◌≡◌, true, false, some, List, [], ◌∷◌, arith, contains, str_eq, Bool-cases, Option-cases,
  inl, inr, Bool, ◌&&◌, eq_iff, subst, refl,
}
use prototype_cache.Prelude.Dict.{Dict, lookup, text_key}
use prototype_cache.Prelude.Text.{strip, is_space}
use prototype_cache.Errors.{ok, Result-cases}
use prototype_cache.Models.{all_in}
use prototype_cache.Paths.{normalize_bucket}
use prototype_cache.Capabilities.Scope.{read, write}
use prototype_cache.ServicePolicy.{
  service_read_buckets, service_write_buckets, assert_service_bucket_allowed,
}

-- Row by row, the second table has the services of the first, with at least their buckets.
abbrev rows_within : Dict String (List String) → Dict String (List String) → Bool
rows_within [] _ = true
rows_within ((sid, _) ∷ _) [] = false
rows_within ((sid, few) ∷ smaller) ((tid, many) ∷ larger) =
    str_eq sid tid && all_in few many && rows_within smaller larger

contains-all_in :
    (bucket : String) (few many : List String)
    → all_in few many ≡ true
    → contains bucket few ≡ true
    → contains bucket many ≡ true
contains-all_in bucket [] many h k = cc
contains-all_in bucket (x ∷ few) many h k =
    let later = contains-all_in bucket few many in
    elim (Bool-cases (str_eq x bucket)) [
      | inl same ↦
          let e : x ≡ bucket = (eq_iff x bucket).0 same in
          subst (λ y. contains y many ≡ true) e (ground arith)
      | inr other ↦ ground (arith, later)
    ]

rows_within-contains :
    (sid bucket : String) (smaller larger : Dict String (List String)) (few : List String)
    → rows_within smaller larger ≡ true
    → lookup sid smaller ≡ some few
    → contains bucket few ≡ true
    → (many : List String) × (lookup sid larger ≡ some many) × (contains bucket many ≡ true)
unfolding lookup
rows_within-contains sid bucket [] larger few h found k = cc
rows_within-contains sid bucket (row ∷ smaller) [] few h found k = cc
rows_within-contains sid bucket ((a, xs) ∷ smaller) ((b, ys) ∷ larger) few h found k =
    elim (Bool-cases (str_eq a sid)) [
      | inl same ↦ (
        ys,
        ground (arith, eq_iff a b),
        contains-all_in bucket xs ys (ground arith) (ground arith),
      )
      | inr other ↦
          let (many, there, in_many) =
            rows_within-contains sid bucket smaller larger few (ground arith) (ground arith) k in
          (many, ground (arith, eq_iff a b), in_many)
    ]

-- A service that may write a bucket may read it.
pub assert_service_bucket_allowed-read :
    (service_id bucket : String)
    → assert_service_bucket_allowed service_id bucket write ≡ ok tt
    → assert_service_bucket_allowed service_id bucket read ≡ ok tt
unfolding assert_service_bucket_allowed
assert_service_bucket_allowed-read service_id bucket h =
    elim (Option-cases (lookup (strip is_space service_id) service_write_buckets)) [
      | inl absent ↦ absurd (ground arith)
      | inr (few, found) ↦ elim (Result-cases (normalize_bucket bucket)) [
        | inr (e, bad) ↦ absurd (ground arith)
        | inl (norm, good) ↦
            let (many, there, in_many) =
              rows_within-contains (strip is_space service_id) norm service_write_buckets
                service_read_buckets few refl found (ground arith) in
            ground arith
      ]
    ]

-- ===== src/Paths/Safe.antt =====
-- What a name that passes `normalize_relative_alias` looks like, and where `build_storage_key` puts
-- the bytes of an asset.
use prototype_cache.Prelude.{
  String, ◌≡◌, refl, inl, inr, Bool-cases, sym, eq_iff, subst, true, false, List, [], ◌∷◌, ◌++◌,
  ◌∙◌, ap, arith, str_eq, contains,
}
use prototype_cache.Prelude.Text.{strip, split, slashed, is_space}
use prototype_cache.Prelude.Text.Segments.{split-slashed}
use prototype_cache.Errors.{Result-cases, ok}
use prototype_cache.Paths.{
  storage_buckets, trim, is_bad_segment, check_segments, normalize_bucket, normalize_relative_alias,
  normalize_partition_id,
}
use prototype_cache.Storage.{ObjectStoreLocation, build_storage_key, for_asset}

check_segments-contains :
    (bad : String) (ws : List String)
    → is_bad_segment bad ≡ true
    → check_segments ws ≡ ok tt
    → contains bad ws ≡ false
unfolding check_segments
check_segments-contains bad [] h k = refl
check_segments-contains bad (w ∷ ws) h k =
    let none_later = check_segments-contains bad ws h in
    let good : (str_eq w bad ≡ true) → w ≡ bad = (eq_iff w bad).0 in
    elim (Bool-cases (str_eq w bad)) [
      | inl same ↦
          let e : w ≡ bad = good same in
          absurd (refused w (subst (λ x. is_bad_segment x ≡ true) (sym e) h) k)
      | inr other ↦ ground (arith, none_later)
    ]
  where
    refused : (w : String) → is_bad_segment w ≡ true → check_segments (w ∷ ws) ≡ ok tt → ⊥
    refused w bad passed = unfold check_segments in ground arith

check_segments-clean :
    (ws : List String)
    → check_segments ws ≡ ok tt
    → (contains "" ws ≡ false) × (contains "." ws ≡ false) × (contains ".." ws ≡ false)
unfolding is_bad_segment
check_segments-clean ws h = (
  check_segments-contains "" ws refl h,
  check_segments-contains "." ws refl h,
  check_segments-contains ".." ws refl h,
)

-- A normalised alias or partition has no segment that is empty, `.` or `..`: it neither begins nor
-- ends with a slash, and leads out of no directory.
pub normalize_relative_alias-clean :
    (alias name : String)
    → normalize_relative_alias alias ≡ ok name
    → (contains "" (split name) ≡ false)
      × (contains "." (split name) ≡ false)
      × (contains ".." (split name) ≡ false)
unfolding normalize_relative_alias
normalize_relative_alias-clean alias name h =
    let same : trim alias ≡ name = ground arith in
    subst
      (λ x.
        (contains "" (split x) ≡ false)
        × (contains "." (split x) ≡ false)
        × (contains ".." (split x) ≡ false))
      same (check_segments-clean (split (trim alias)) (ground arith))

normalize_bucket-known :
    (space bucket : String)
    → normalize_bucket space ≡ ok bucket
    → contains bucket storage_buckets ≡ true
unfolding normalize_bucket
normalize_bucket-known space bucket h =
    let same : trim space ≡ bucket = ground arith in
    subst (λ x. contains x storage_buckets ≡ true) same (ground arith)

for_asset-key :
    (space partition_id asset_id pid : String) (place : ObjectStoreLocation)
    → normalize_partition_id partition_id ≡ ok pid
    → for_asset space partition_id asset_id ≡ ok place
    → (normalize_bucket space ≡ ok place.bucket)
      × (place.key ≡ slashed pid (slashed "assets" (strip is_space asset_id)))
unfolding for_asset build_storage_key
for_asset-key space partition_id asset_id pid place p h = (ground arith, ground (arith))

split-key :
    (pid asset : String)
    → split (slashed pid (slashed "assets" asset)) ≡ split pid ++ ("assets" ∷ split asset)
unfolding split
split-key pid asset =
    split-slashed pid (slashed "assets" asset)
    ∙ ap (λ (l : List String). split pid ++ l) (split-slashed "assets" asset)

-- The object of an asset lies in a known bucket, under the segments of the normalised partition and
-- then `assets`; what follows is the identifier without the spaces around it.
pub for_asset-split :
    (space partition_id asset_id : String) (place : ObjectStoreLocation)
    → for_asset space partition_id asset_id ≡ ok place
    → (pid : String) × (normalize_partition_id partition_id ≡ ok pid)
      × (contains place.bucket storage_buckets ≡ true)
      × (split place.key ≡ split pid ++ ("assets" ∷ split (strip is_space asset_id)))
unfolding for_asset build_storage_key
for_asset-split space partition_id asset_id place h =
    elim (Result-cases (normalize_partition_id partition_id)) [
      | inl (pid, p) ↦
          let (b, k) = for_asset-key space partition_id asset_id pid place p h in
          (
            pid,
            p,
            normalize_bucket-known space place.bucket b,
            ap split k ∙ split-key pid (strip is_space asset_id),
          )
      | inr (e, p) ↦ absurd (ground arith)
    ]

-- ===== src/Registry/Behaviour/Commit.antt =====
-- `commit_asset`: what a commit that succeeds has checked and done, and that one that raises has
-- done nothing.
use prototype_cache.Prelude.{
  ℕ, ◌+◌, String, ◌≡◌, refl, false, some, none, Option, arith, Option-cases, inl, inr, ◌⊎◌, length,
  sum_of, sym, ap, ◌∙◌,
}
use prototype_cache.Prelude.Int.{ℤ, pos, negsuc}
use prototype_cache.Prelude.Dict.{lookup, insert, text_key, pair_key}
use prototype_cache.Errors.{Error, ok, err, validation}
use prototype_cache.Models.{Asset, pending, available}
use prototype_cache.Env.{Env}
use prototype_cache.Paths.{normalize_space, normalize_partition_id}
use prototype_cache.Registry.State.{Registry}
use prototype_cache.Registry.Quota.{
  partition_hard_ratio, partition_quota, bucket_quota, enforce_quota, over_bytes, over_count,
  reserved, pending_in, pending_under,
}
use prototype_cache.Registry.Accounts.{
  IsWellFormed, current_partition, current_bucket, acquire_quota_lem,
}
use prototype_cache.Registry.Lifecycle.{commit_asset}
use prototype_cache.Registry.Steps.Common.{IsPlaced-in}
use prototype_cache.Registry.Steps.Commit.{
  IsCommittable, committed_version, after_commit, commit_asset_checks, commit_asset_absent,
}

-- The ceilings that an upload of `n` bytes stays below, the uploads that hold a reservation
-- counted in and the asset itself left out.
pub record IsBelowCeilings (env : Env) (s : Registry) (space partition b q : String) (n : ℕ)
    (exclude : Option String) : Type 0 where
  pub bytes :
      over_bytes env
        ((current_partition s.partition_quotas (b, q)).used_bytes
          + sum_of reserved (pending_under s space partition exclude)
          + n)
        (current_partition s.partition_quotas (b, q)).quota_bytes
        partition_hard_ratio
      ≡ false
  pub count :
      over_count
        ((current_partition s.partition_quotas (b, q)).used_asset_count
          + length (pending_under s space partition exclude)
          + 1)
        (current_partition s.partition_quotas (b, q)).quota_asset_count
      ≡ false
  pub bucket :
      over_bytes env
        ((current_bucket s.bucket_quotas b).used_bytes
          + sum_of reserved (pending_in s space exclude)
          + n)
        (current_bucket s.bucket_quotas b).quota_bytes
        (current_bucket s.bucket_quotas b).hard_ceiling
      ≡ false

enforce_quota-ok :
    (env : Env) (s : Registry) (space partition b q : String) (n : ℕ) (exclude : Option String)
    → normalize_space space ≡ ok b
    → normalize_partition_id partition ≡ ok q
    → enforce_quota env s space partition n exclude ≡ ok tt
    → IsBelowCeilings env s space partition b q n exclude
unfolding enforce_quota partition_quota bucket_quota
enforce_quota-ok env s space partition b q n exclude hb hq h = record {
  bytes = ground arith;
  count = ground arith;
  bucket = ground arith;
}

-- What a commit has checked and done. Its state before is `s`, and after it is `t`.
pub record Commits (env : Env) (s t : Registry) (id : String) (size : ℤ) (old new : Asset)
    : Type 0 where
  pub n : ℕ
  pub b : String
  pub q : String
  pub sized : size ≡ pos n
  pub found : lookup id s.assets ≡ some old
  pub waited : old.state ≡ pending
  pub live : new.state ≡ available
  pub holds : new.size_bytes ≡ some n
  pub released : new.reserved_bytes ≡ none
  pub stored : t.assets ≡ insert id new s.assets
  pub bucket : normalize_space old.space ≡ ok b
  pub partition : normalize_partition_id old.partition_id ≡ ok q
  pub below : IsBelowCeilings env s old.space old.partition_id b q n (some id)

module _ (env : Env) (s : Registry) (w : IsWellFormed s) (id : String) (size : ℕ)
    (checksum caller : String) (mime expected : Option String) (a : Asset)
    (found : lookup id s.assets ≡ some a)
    (c : IsCommittable env s w id size checksum caller mime expected a found) where
  abbrev version : Asset
  version = committed_version env s w id size checksum caller mime expected a found

  commit_asset-fits :
      ((commit_asset env id (pos size) checksum caller mime expected s).0 ≡ ok version)
      × ((commit_asset env id (pos size) checksum caller mime expected s).1.assets
          ≡ insert id version s.assets)
  unfolding commit_asset
  commit_asset-fits =
      let names = (w.filed id a found).names in
      let t = after_commit env s w id size checksum caller mime expected a found in
      let taken =
        acquire_quota_lem a.space a.partition_id names.b names.q t (IsPlaced-in t w found refl refl)
          size in
      (
        ground (arith, taken, c.has_checksum, c.matches, c.waits, c.sized, c.fits),
        ground (arith, taken, c.has_checksum, c.matches, c.waits, c.sized, c.fits),
      )

  commit_asset-Commits :
      (new : Asset)
      → (commit_asset env id (pos size) checksum caller mime expected s).0 ≡ ok new
      → Commits env s
          (commit_asset env id (pos size) checksum caller mime expected s).1
          id
          (pos size)
          a
          new
  commit_asset-Commits new h =
      let names = (w.filed id a found).names in
      let same : version ≡ new = ok_inj (sym commit_asset-fits.0 ∙ h) in
      record {
        n = size;
        b = names.b;
        q = names.q;
        sized = refl;
        found = found;
        waited = c.waits;
        live = ap (λ x. x.state) (sym same);
        holds = ap (λ x. x.size_bytes) (sym same);
        released = ap (λ x. x.reserved_bytes) (sym same);
        stored = commit_asset-fits.1 ∙ ap (λ x. insert id x s.assets) same;
        bucket = names.bucket;
        partition = names.partition;
        below =
            enforce_quota-ok env s a.space a.partition_id names.b names.q size (some id)
              names.bucket names.partition c.fits;
      }
    where
      ok_inj : {x y : Asset} → ok x ≡ ok y → x ≡ y
      ok_inj e = cc

-- A commit in a well-formed registry either raises and leaves the registry as it was, or it
-- returns the new version of an asset that was pending: available, of the given size, with no
-- reservation left and stored under the identifier; and then the bytes and the number of assets of
-- its partition, and the bytes of its bucket, with those that other uploads have reserved and with
-- the new asset, were below their ceilings.
pub commit_asset_outcome :
    (env : Env) (s : Registry) (id : String) (size : ℤ) (checksum caller : String)
    (mime expected : Option String)
    → IsWellFormed s
    → ((e : Error) × (commit_asset env id size checksum caller mime expected s ≡ (err e, s)))
      ⊎ ((old : Asset) × (new : Asset) × ((commit_asset env id size checksum caller mime expected
              s).0
            ≡ ok new)
          × Commits env s
              (commit_asset env id size checksum caller mime expected s).1
              id
              size
              old
              new)
commit_asset_outcome env s id (negsuc n) checksum caller mime expected w =
    inl (validation, unfold commit_asset in refl)
commit_asset_outcome env s id (pos n) checksum caller mime expected w =
    elim (Option-cases (lookup id s.assets)) [
      | inl absent ↦
          inl (commit_asset_absent env s w id (pos n) checksum caller mime expected absent)
      | inr (a, found) ↦
          elim (commit_asset_checks env s w id n checksum caller mime expected a found) [
            | inl refused ↦ inl refused
            | inr c ↦
                let done = commit_asset-fits env s w id n checksum caller mime expected a found c in
                let new = version env s w id n checksum caller mime expected a found c in
                inr (
                  a,
                  new,
                  done.0,
                  commit_asset-Commits env s w id n checksum caller mime expected a found c new
                      done.0,
                )
          ]
    ]

-- ===== src/Registry/Steps/Commit.antt =====
-- `commit_asset` and `set_asset_ttl`: an asset becomes available and its quota is acquired.
use prototype_cache.Prelude.{
  ℕ, ◌+◌, String, ◌≡◌, refl, true, false, not, ◌&&◌, ◌⊎◌, Option, none, some, arith, inl, inr,
  Bool-cases, Option-cases, get_or, subst, sym, str_eq, is_some,
}
use prototype_cache.Prelude.Int.{ℤ, pos, negsuc}
use prototype_cache.Prelude.Text.{strip, is_space}
use prototype_cache.Prelude.Dict.{lookup, insert, text_key}
use prototype_cache.Errors.{
  Result-cases, ok, err, Error, validation, checksum_mismatch, asset_not_found,
  invalid_state_transition,
}
use prototype_cache.Models.{Asset, AssetState, pending, available, expired, deleted, state_eq}
use prototype_cache.Env.{Env}
use prototype_cache.Retention.{expiry_for}
use prototype_cache.Registry.State.{Registry}
use prototype_cache.Registry.Quota.{enforce_quota}
use prototype_cache.Registry.Accounts.{acquire_quota_lem, IsWellFormed, Step, quiet, charge, edit}
use prototype_cache.Registry.Lifecycle.{
  commit_asset, set_asset_ttl, regain_if_expired, or_mime, differs, other_size,
}
use prototype_cache.Registry.Steps.Common.{IsPlaced-in}

module _ (env : Env) (s : Registry) (w : IsWellFormed s) (id : String) where
  module _ (size : ℕ) (checksum caller : String) (mime expected : Option String) (a : Asset)
      (found : lookup id s.assets ≡ some a) where
    abbrev pub committed_version : Asset
    committed_version = record a {
      state = available;
      size_bytes = some size;
      reserved_bytes = none;
      checksum = some (strip is_space checksum);
      mime = or_mime mime a.mime;
      updated_at = env.clock s.readings;
    }

    abbrev pub after_commit : Registry
    after_commit = record s {
      assets = insert id committed_version s.assets;
      readings = s.readings + 1;
    }

    -- What lets a commit through.
    pub record IsCommittable : Type 0 where
      pub has_checksum : str_eq (strip is_space checksum) "" ≡ false
      pub matches : differs expected (strip is_space checksum) ≡ false
      pub waits : a.state ≡ pending
      pub sized : other_size a.reserved_bytes size ≡ false
      pub fits : enforce_quota env s a.space a.partition_id size (some id) ≡ ok tt

    commit_asset_fits :
        IsCommittable → Step s (commit_asset env id (pos size) checksum caller mime expected s).1
    unfolding commit_asset
    commit_asset_fits c =
        let names = (w.filed id a found).names in
        let taken =
          acquire_quota_lem a.space a.partition_id names.b names.q after_commit
            (IsPlaced-in after_commit w found refl refl) size in
        charge id a committed_version
          (record {
            found = found;
            identity = record {
              asset_id = refl;
              space = refl;
              partition_id = refl;
              storage_key = refl;
            };
            assets = ground (arith, taken, c.has_checksum, c.matches, c.waits, c.sized, c.fits);
          })
          (ground (arith, c.waits)) refl refl names
          (ground (arith, taken, c.has_checksum, c.matches, c.waits, c.sized, c.fits))
          (ground (arith, taken, c.has_checksum, c.matches, c.waits, c.sized, c.fits))

    -- A commit that is refused changes nothing; one that is not meets every check.
    pub commit_asset_checks :
        ((e : Error) × (commit_asset env id (pos size) checksum caller mime expected s
            ≡ (err e, s)))
        ⊎ IsCommittable
    unfolding commit_asset
    commit_asset_checks = elim (Bool-cases (str_eq (strip is_space checksum) "")) [
      | inl no_checksum ↦ inl (validation, ground arith)
      | inr some_checksum ↦ elim (Bool-cases (differs expected (strip is_space checksum))) [
        | inl mismatch ↦ inl (checksum_mismatch, ground arith)
        | inr matching ↦ elim (Bool-cases (state_eq a.state pending)) [
          | inr other ↦ inl (invalid_state_transition, ground arith)
          | inl waits ↦ elim (Bool-cases (other_size a.reserved_bytes size)) [
            | inl wrong ↦ inl (validation, ground arith)
            | inr right ↦
                elim (Result-cases (enforce_quota env s a.space a.partition_id size (some id))) [
                  | inr (e, over) ↦ inl (e, ground arith)
                  | inl (u, fits) ↦ inr (record {
                    has_checksum = some_checksum;
                    matches = matching;
                    waits = ground arith;
                    sized = right;
                    fits = fits;
                  })
                ]
          ]
        ]
      ]
    ]

  pub commit_asset_absent :
      (size : ℤ) (checksum caller : String) (mime expected : Option String)
      → lookup id s.assets ≡ none
      → (e : Error) × (commit_asset env id size checksum caller mime expected s ≡ (err e, s))
  unfolding commit_asset
  commit_asset_absent (negsuc n) checksum caller mime expected absent = (validation, refl)
  commit_asset_absent (pos n) checksum caller mime expected absent =
      elim (Bool-cases (str_eq (strip is_space checksum) "")) [
        | inl no_checksum ↦ (validation, ground arith)
        | inr some_checksum ↦ elim (Bool-cases (differs expected (strip is_space checksum))) [
          | inl mismatch ↦ (checksum_mismatch, ground arith)
          | inr matching ↦ (asset_not_found, ground arith)
        ]
      ]

  pub commit_asset-Step :
      (size : ℤ) (checksum caller : String) (mime expected : Option String)
      → Step s (commit_asset env id size checksum caller mime expected s).1
  unfolding commit_asset
  commit_asset-Step (negsuc n) checksum caller mime expected = quiet refl (refl, refl)
  commit_asset-Step (pos size) checksum caller mime expected =
      elim (Option-cases (lookup id s.assets)) [
        | inl absent ↦
            subst (λ r. Step s r.1)
              (sym (commit_asset_absent (pos size) checksum caller mime expected absent).1)
              (quiet refl (refl, refl))
        | inr (a, found) ↦ elim (commit_asset_checks size checksum caller mime expected a found) [
          | inl (e, same) ↦ subst (λ r. Step s r.1) (sym same) (quiet refl (refl, refl))
          | inr fits ↦ commit_asset_fits size checksum caller mime expected a found fits
        ]
      ]

  module _ (ttl : ℤ) (caller : String) (a : Asset) (found : lookup id s.assets ≡ some a)
      (deadline : Option ℕ) where
    abbrev restored_version : Asset
    restored_version = record a {
      state = available;
      expires_at = deadline;
      expired_at = none;
      updated_at = env.clock s.readings;
    }

    abbrev after_reading : Registry
    after_reading = record s { readings = s.readings + 1 }

    -- What lets a deadline be set.
    pub record IsRestorable : Type 0 where
      pub kept : (is_some a.size_bytes && is_some a.checksum) ≡ true
      pub due : expiry_for env a.space (some ttl) (env.clock s.readings) ≡ ok deadline

    set_asset_ttl_live :
        IsRestorable → a.state ≡ available → Step s (set_asset_ttl env id ttl caller s).1
    unfolding set_asset_ttl regain_if_expired
    set_asset_ttl_live c live =
        edit id a restored_version found
          (record {
            identity = record {
              asset_id = refl;
              space = refl;
              partition_id = refl;
              storage_key = refl;
            };
            state = ground arith;
            size_bytes = refl;
            payload_deleted_at = refl;
          })
          (ground (arith, c.kept, c.due))
          (ground (arith, c.kept, c.due), ground (arith, c.kept, c.due))

    set_asset_ttl_expired :
        IsRestorable
        → a.state ≡ expired
        → enforce_quota env after_reading a.space a.partition_id
            (get_or a.size_bytes 0)
            (some a.asset_id)
          ≡ ok tt
        → Step s (set_asset_ttl env id ttl caller s).1
    unfolding set_asset_ttl regain_if_expired
    set_asset_ttl_expired c gone fits =
        let names = (w.filed id a found).names in
        let taken =
          acquire_quota_lem a.space a.partition_id names.b names.q after_reading
            (IsPlaced-in after_reading w found refl refl) (get_or a.size_bytes 0) in
        charge id a restored_version
          (record {
            found = found;
            identity = record {
              asset_id = refl;
              space = refl;
              partition_id = refl;
              storage_key = refl;
            };
            assets = ground (arith, taken, c.kept, c.due, fits);
          })
          (ground arith) refl refl names (ground (arith, taken, c.kept, c.due, fits))
          (ground (arith, taken, c.kept, c.due, fits))

    set_asset_ttl_over :
        IsRestorable
        → a.state ≡ expired
        → (e : Error)
        → enforce_quota env after_reading a.space a.partition_id
            (get_or a.size_bytes 0)
            (some a.asset_id)
          ≡ err e
        → set_asset_ttl env id ttl caller s ≡ (err e, after_reading)
    unfolding set_asset_ttl regain_if_expired
    set_asset_ttl_over c gone e over = ground (arith, c.kept, c.due)

  set_asset_ttl_absent :
      (ttl : ℤ) (caller : String)
      → lookup id s.assets ≡ none
      → (set_asset_ttl env id ttl caller s).1 ≡ s
  unfolding set_asset_ttl
  set_asset_ttl_absent ttl caller absent = ground arith

  module _ (ttl : ℤ) (caller : String) (a : Asset) (found : lookup id s.assets ≡ some a) where
    set_asset_ttl_refused :
        (is_some a.size_bytes
            && is_some a.checksum
            && not (state_eq a.state pending)
            && not (state_eq a.state deleted))
          ≡ false
        → (set_asset_ttl env id ttl caller s).1 ≡ s
    unfolding set_asset_ttl
    set_asset_ttl_refused h = ground arith

    set_asset_ttl_undue :
        (e : Error)
        → expiry_for env a.space (some ttl) (env.clock s.readings) ≡ err e
        → (is_some a.size_bytes
            && is_some a.checksum
            && not (state_eq a.state pending)
            && not (state_eq a.state deleted))
          ≡ true
        → (set_asset_ttl env id ttl caller s).1 ≡ record s { readings = s.readings + 1 }
    unfolding set_asset_ttl
    set_asset_ttl_undue e h ready = ground arith

    set_asset_ttl_due :
        (deadline : Option ℕ)
        → IsRestorable ttl caller a found deadline
        → (x : AssetState) → a.state ≡ x
        → (not (state_eq x pending) && not (state_eq x deleted)) ≡ true
        → Step s (set_asset_ttl env id ttl caller s).1
    set_asset_ttl_due deadline c available e h = set_asset_ttl_live ttl caller a found deadline c e
    set_asset_ttl_due deadline c expired e h =
        elim (Result-cases (
          enforce_quota env (record s { readings = s.readings + 1 }) a.space a.partition_id
            (get_or a.size_bytes 0) (some a.asset_id))) [
              | inl (u, fits) ↦ set_asset_ttl_expired ttl caller a found deadline c e fits
              | inr (x, over) ↦
                  subst (λ r. Step s r.1)
                    (sym (set_asset_ttl_over ttl caller a found deadline c e x over))
                    (quiet refl (refl, refl))
            ]
    set_asset_ttl_due deadline c pending e h = cc
    set_asset_ttl_due deadline c deleted e h = cc

    set_asset_ttl_found : Step s (set_asset_ttl env id ttl caller s).1
    set_asset_ttl_found =
        elim (Bool-cases (
          is_some a.size_bytes
          && is_some a.checksum
          && not (state_eq a.state pending)
          && not (state_eq a.state deleted))) [
            | inr refused ↦
                subst (Step s) (sym (set_asset_ttl_refused refused)) (quiet refl (refl, refl))
            | inl ready ↦
                elim (Result-cases (expiry_for env a.space (some ttl) (env.clock s.readings))) [
                  | inr (e, undue) ↦
                      subst (Step s) (sym (set_asset_ttl_undue e undue ready))
                        (quiet refl (refl, refl))
                  | inl (deadline, due) ↦
                      set_asset_ttl_due deadline (record { kept = ground arith; due = due }) a.state
                        refl (ground arith)
                ]
          ]

  pub set_asset_ttl-Step :
      (ttl : ℤ) (caller : String) → Step s (set_asset_ttl env id ttl caller s).1
  set_asset_ttl-Step ttl caller = elim (Option-cases (lookup id s.assets)) [
    | inl absent ↦
        subst (Step s) (sym (set_asset_ttl_absent ttl caller absent)) (quiet refl (refl, refl))
    | inr (a, found) ↦ set_asset_ttl_found ttl caller a found
  ]

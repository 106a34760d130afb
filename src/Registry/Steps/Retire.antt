-- ===== src/Registry/Steps/Retire.antt =====
-- `expire_asset`, `delete_asset` and the garbage marking: an available asset leaves that state and
-- its quota is returned.
use prototype_cache.Prelude.{
  ◌+◌, String, ◌≡◌, refl, true, false, not, ◌||◌, some, arith, inl, inr, Bool-cases, Option-cases,
  get_or, subst, sym, ◌&&◌,
}
use prototype_cache.Prelude.Dict.{lookup, insert, text_key}
use prototype_cache.Errors.{ok}
use prototype_cache.Models.{Asset, AssetState, pending, available, expired, deleted, state_eq}
use prototype_cache.Env.{Env}
use prototype_cache.Registry.State.{Registry}
use prototype_cache.Registry.Counters.{release_quota}
use prototype_cache.Registry.Accounts.{return_quota_lem, IsWellFormed, Step, quiet, refund, lapse}
use prototype_cache.Registry.Lifecycle.{
  expire_asset, delete_asset, gc_mark, mark_for_gc_if_orphaned, is_empty,
}
use prototype_cache.Registry.Steps.Common.{IsPlaced-in}

module _ (env : Env) (id caller : String) (s : Registry) (w : IsWellFormed s) where
  module _ (a : Asset) (found : lookup id s.assets ≡ some a) where
    -- the asset as `expire_asset` and the garbage marking write it
    abbrev expired_version : Asset
    expired_version = record a {
      state = expired;
      updated_at = env.clock s.readings;
      expired_at = some (env.clock (s.readings + 1));
    }

    abbrev deleted_version : Asset
    deleted_version = record a { state = deleted; updated_at = env.clock s.readings }

    abbrev after_expiry : Registry
    after_expiry = record s {
      assets = insert id expired_version s.assets;
      readings = s.readings + 1 + 1;
    }

    abbrev after_deletion : Registry
    after_deletion = record s {
      assets = insert id deleted_version s.assets;
      readings = s.readings + 1;
    }

    expire_asset_live : a.state ≡ available → Step s (expire_asset env id caller s).1
    unfolding expire_asset release_quota
    expire_asset_live live =
        let names = (w.filed id a found).names in
        let back =
          return_quota_lem a.space a.partition_id names.b names.q after_expiry
            (IsPlaced-in after_expiry w found refl refl) (get_or a.size_bytes 0) in
        refund id a expired_version
          (record {
            found = found;
            identity = record {
              asset_id = refl;
              space = refl;
              partition_id = refl;
              storage_key = refl;
            };
            assets = ground (arith, back);
          })
          live refl refl names (ground (arith, back)) (ground (arith, back))

    gc_mark_live : a.state ≡ available → Step s (gc_mark env a id caller s).1
    unfolding gc_mark release_quota
    gc_mark_live live =
        let names = (w.filed id a found).names in
        let back =
          return_quota_lem a.space a.partition_id names.b names.q after_expiry
            (IsPlaced-in after_expiry w found refl refl) (get_or a.size_bytes 0) in
        refund id a expired_version
          (record {
            found = found;
            identity = record {
              asset_id = refl;
              space = refl;
              partition_id = refl;
              storage_key = refl;
            };
            assets = ground (arith, back);
          })
          live refl refl names (ground (arith, back)) (ground (arith, back))

    -- A pending asset is marked too, and has no quota to return.
    gc_mark_pending : a.state ≡ pending → Step s (gc_mark env a id caller s).1
    unfolding gc_mark release_quota
    gc_mark_pending waiting =
        lapse id a expired_version
          (record {
            found = found;
            identity = record {
              asset_id = refl;
              space = refl;
              partition_id = refl;
              storage_key = refl;
            };
            assets = ground arith;
          })
          (λ live. cc) (ground arith) (inl refl) (ground arith, ground arith)

    delete_asset_live : a.state ≡ available → Step s (delete_asset env id caller s).1
    unfolding delete_asset release_quota
    delete_asset_live live =
        let names = (w.filed id a found).names in
        let back =
          return_quota_lem a.space a.partition_id names.b names.q after_deletion
            (IsPlaced-in after_deletion w found refl refl) (get_or a.size_bytes 0) in
        refund id a deleted_version
          (record {
            found = found;
            identity = record {
              asset_id = refl;
              space = refl;
              partition_id = refl;
              storage_key = refl;
            };
            assets = ground (arith, back);
          })
          live refl refl names (ground (arith, back)) (ground (arith, back))

    delete_asset_expired : a.state ≡ expired → Step s (delete_asset env id caller s).1
    unfolding delete_asset release_quota
    delete_asset_expired gone =
        lapse id a deleted_version
          (record {
            found = found;
            identity = record {
              asset_id = refl;
              space = refl;
              partition_id = refl;
              storage_key = refl;
            };
            assets = ground arith;
          })
          (λ live. cc) (ground arith) (inl refl) (ground arith, ground arith)

    expire_asset_found : (x : AssetState) → a.state ≡ x → Step s (expire_asset env id caller s).1
    unfolding expire_asset
    expire_asset_found available e = expire_asset_live e
    expire_asset_found _ e = quiet (ground arith) (ground arith, ground arith)

    delete_asset_found : (x : AssetState) → a.state ≡ x → Step s (delete_asset env id caller s).1
    unfolding delete_asset
    delete_asset_found available e = delete_asset_live e
    delete_asset_found expired e = delete_asset_expired e
    delete_asset_found _ e = quiet (ground arith) (ground arith, ground arith)

    mark_for_gc_orphan :
        is_empty a.aliases ≡ true
        → (state_eq a.state expired || state_eq a.state deleted) ≡ false
        → mark_for_gc_if_orphaned env id caller s ≡ gc_mark env a id caller s
    unfolding mark_for_gc_if_orphaned
    mark_for_gc_orphan orphaned live = ground arith

    mark_for_gc_skips :
        (is_empty a.aliases && not (state_eq a.state expired || state_eq a.state deleted)) ≡ false
        → mark_for_gc_if_orphaned env id caller s ≡ (ok tt, s)
    unfolding mark_for_gc_if_orphaned
    mark_for_gc_skips h = ground arith

    gc_mark_found :
        (x : AssetState)
        → a.state ≡ x
        → (state_eq x expired || state_eq x deleted) ≡ false
        → Step s (gc_mark env a id caller s).1
    gc_mark_found available e h = gc_mark_live e
    gc_mark_found pending e h = gc_mark_pending e
    gc_mark_found expired e h = cc
    gc_mark_found deleted e h = cc

    mark_for_gc_found : Step s (mark_for_gc_if_orphaned env id caller s).1
    mark_for_gc_found =
        elim (Bool-cases
          (is_empty a.aliases && not (state_eq a.state expired || state_eq a.state deleted))) [
            | inl marks ↦
                subst (λ r. Step s r.1) (sym (mark_for_gc_orphan (ground arith) (ground arith)))
                  (gc_mark_found a.state refl (ground arith))
            | inr skips ↦
                subst (λ r. Step s r.1) (sym (mark_for_gc_skips skips)) (quiet refl (refl, refl))
          ]

  pub expire_asset-Step : Step s (expire_asset env id caller s).1
  expire_asset-Step = elim (Option-cases (lookup id s.assets)) [
    | inl absent ↦ unfold expire_asset in quiet (ground arith) (ground arith, ground arith)
    | inr (a, found) ↦ expire_asset_found a found a.state refl
  ]

  pub delete_asset-Step : Step s (delete_asset env id caller s).1
  delete_asset-Step = elim (Option-cases (lookup id s.assets)) [
    | inl absent ↦ unfold delete_asset in quiet (ground arith) (ground arith, ground arith)
    | inr (a, found) ↦ delete_asset_found a found a.state refl
  ]

  pub mark_for_gc_if_orphaned-Step : Step s (mark_for_gc_if_orphaned env id caller s).1
  mark_for_gc_if_orphaned-Step = elim (Option-cases (lookup id s.assets)) [
    | inl absent ↦
        unfold mark_for_gc_if_orphaned in quiet (ground arith) (ground arith, ground arith)
    | inr (a, found) ↦ mark_for_gc_found a found
  ]

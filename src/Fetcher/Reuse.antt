-- ===== src/Fetcher/Reuse.antt =====
-- A URL of which the alias is bound: what another request for it does.
use Prim.Native.String.{◌++◌}
use prototype_cache.Prelude.{
  ℕ, String, Bool, true, false, ◌≡◌, refl, Option, some, List, arith, ◌⊎◌, inl, inr, eq_iff,
}
use prototype_cache.Errors.{Result-cases, ok}
use prototype_cache.Fetcher.Urls.{UrlTools, NormalizedUrl, canonical, normalize_url}
use prototype_cache.Fetcher.Rules.{CacheRule}
use prototype_cache.Fetcher.Ensure.{
  StoredAsset, FetchedContent, Services, EnsureUrlResult, Target, choose_target, refetch,
  after_lookup, ensure_url, as_request_error,
}

module _ (tools : UrlTools) {W : Type 0} (services : Services W) where
  -- Where the alias of a URL is bound already, nothing is uploaded: after the lookup at most the URL
  -- is fetched, and a result names the asset that is bound; where a fetch was asked for, the result
  -- comes only with bytes of the checksum of that asset.
  pub ensure_url-keeps :
      (rules : List CacheRule) (url : String) (no_cache : Bool) (tmp_id suffix : Option String)
      (ttl : ℕ) (w : W) (normalized : NormalizedUrl) (target : Target) (existing : StoredAsset)
      → as_request_error (normalize_url tools url) ≡ ok normalized
      → choose_target tools services rules tmp_id suffix normalized ≡ ok target
      → (services.resolve target.bucket target.relative_alias w).0 ≡ ok (some existing)
      → let w1 = (services.resolve target.bucket target.relative_alias w).1 in
        let fetch = services.fetch (canonical tools normalized) w1 in
        let out = ensure_url tools services rules url no_cache tmp_id suffix ttl w in
        ((out.1 ≡ w1) ⊎ (out.1 ≡ fetch.1))
        × ((r : EnsureUrlResult)
            → out.0 ≡ ok r
            → (r.asset_id ≡ existing.asset_id)
              × ((no_cache ≡ false)
                  ⊎ ((fetched : FetchedContent) × (fetch.0 ≡ ok fetched)
                      × ("sha256:" ++ services.digest fetched.content ≡ existing.checksum))))
  unfolding ensure_url after_lookup refetch
  ensure_url-keeps rules url false tmp_id suffix ttl w normalized target existing clean chosen
        found =
      (inl (ground arith), λ r h. (ground arith, inl refl))
  ensure_url-keeps rules url true tmp_id suffix ttl w normalized target existing clean chosen
        found =
      let w1 = (services.resolve target.bucket target.relative_alias w).1 in
      elim (Result-cases (services.fetch (canonical tools normalized) w1).0) [
        | inr (e, failed) ↦ (inr (ground arith), λ r h. absurd (ground arith))
        | inl (fetched, got) ↦ (
          inr (ground arith),
          λ r h. (
            ground arith,
            inr (
              fetched,
              got,
              ground
                  (arith, eq_iff ("sha256:" ++ services.digest fetched.content) existing.checksum),
            ),
          ),
        )
      ]

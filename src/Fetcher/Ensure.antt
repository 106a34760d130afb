-- ===== src/Fetcher/Ensure.antt =====
-- src/fetcher_service/service.py: `ensure_url`, over any client of the asset store and any fetcher.
-- The log and the counter of refetches are not modelled.
use Prim.Native.String.{◌++◌}
use prototype_cache.Prelude.{
  ℕ, String, Bool, true, false, not, Option, none, some, List, str_eq, get_or, if◌then◌else◌,
}
use prototype_cache.Prelude.Text.{strip, is_slash, slashed}
use prototype_cache.Errors.{Result, ok, err, invalid_url, invalid_request, content_mismatch}
use prototype_cache.Exec.{Exec, pure, lift, raise_when, if_else, ◌>>=◌, ◌>>◌}
use prototype_cache.Fetcher.Urls.{UrlTools, NormalizedUrl, canonical, normalize_url}
use prototype_cache.Fetcher.Rules.{RuleMatch, CacheRule, evaluate}

-- What the code reads of a stored asset.
pub record StoredAsset : Type 0 where
  pub asset_id : String
  pub checksum : String

pub record FetchedContent : Type 0 where
  pub content : List ℕ
  pub mime : String

-- `AssetStoreClient` and `UrlFetcher`, over the state of the world.
pub record Services (W : Type 0) : Type 0 where
  pub resolve : (space alias : String) → Exec W (Option StoredAsset)
  pub mint_write_capability : (scope_prefix : String) (ttl_seconds : ℕ) → Exec W String
  pub put_object :
      (capability_id qualified_alias : String) (content : List ℕ) (mime : String)
      → Exec W StoredAsset
  pub fetch : (url : String) → Exec W FetchedContent
  -- `hashlib.sha256(...).hexdigest()` of bytes, and the first 32 digits of that of a text
  pub digest : List ℕ → String
  pub short_digest : String → String

pub record EnsureUrlResult : Type 0 where
  pub asset_id : String
  pub qualified_alias : String
  pub cache_hit : Bool
  pub bucket : String
  pub partition_id : String

-- Where the copy of a URL goes: `bucket`, `partition_id` and `relative_alias`.
pub record Target : Type 0 where
  pub bucket : String
  pub partition_id : String
  pub relative_alias : String

abbrev pub qualified : Target → String
qualified t = slashed t.bucket t.relative_alias

-- `except InvalidUrl`
abbrev pub as_request_error : Result NormalizedUrl → Result NormalizedUrl
as_request_error (err invalid_url) = err invalid_request
as_request_error r = r

module _ (tools : UrlTools) {W : Type 0} (services : Services W) where
  -- `_tmp_alias_tail`
  unfoldable pub tmp_alias_tail : NormalizedUrl → Option String → String
  tmp_alias_tail normalized preferred_alias_suffix =
      let preferred = get_or preferred_alias_suffix "" in
      if str_eq preferred ""
      then "fetched/" ++ services.short_digest (canonical tools normalized)
      else strip is_slash preferred

  abbrev target_of :
      NormalizedUrl → Option String → Option String → Option RuleMatch → Result Target
  target_of normalized tmp_id preferred_alias_suffix (some found) = ok (record {
    bucket = "cache";
    partition_id = found.mirror_id;
    relative_alias = slashed found.mirror_id found.primary_alias;
  })
  target_of normalized tmp_id preferred_alias_suffix none =
      let id = get_or tmp_id "" in
      if str_eq id ""
      then err invalid_request
      else ok (record {
        bucket = "tmp";
        partition_id = strip is_slash id;
        relative_alias =
            slashed (strip is_slash id) (tmp_alias_tail normalized preferred_alias_suffix);
      })

  unfoldable pub choose_target :
      List CacheRule → Option String → Option String → NormalizedUrl → Result Target
  unfolding tmp_alias_tail
  choose_target rules tmp_id preferred_alias_suffix normalized =
      target_of normalized tmp_id preferred_alias_suffix (evaluate tools rules normalized)

  abbrev pub result_of : Target → StoredAsset → Bool → EnsureUrlResult
  result_of target asset cache_hit = record {
    asset_id = asset.asset_id;
    qualified_alias = qualified target;
    cache_hit = cache_hit;
    bucket = target.bucket;
    partition_id = target.partition_id;
  }

  -- the bytes of an asset that exists, fetched again
  unfoldable pub refetch : NormalizedUrl → Target → StoredAsset → Exec W EnsureUrlResult
  refetch normalized target existing = do
    fetched ← services.fetch (canonical tools normalized)
    raise_when (not (str_eq ("sha256:" ++ services.digest fetched.content) existing.checksum))
        content_mismatch
    pure (result_of target existing false)

  -- the bytes fetched and uploaded
  unfoldable pub materialize : NormalizedUrl → Target → ℕ → Exec W EnsureUrlResult
  materialize normalized target capability_ttl_seconds = do
    fetched ← services.fetch (canonical tools normalized)
    capability_id ←
        services.mint_write_capability (slashed target.bucket target.partition_id)
          capability_ttl_seconds
    asset ← services.put_object capability_id (qualified target) fetched.content fetched.mime
    pure (result_of target asset false)

  -- what follows the lookup
  unfoldable pub after_lookup :
      NormalizedUrl → Target → Bool → ℕ → Option StoredAsset → Exec W EnsureUrlResult
  after_lookup normalized target no_cache ttl none = materialize normalized target ttl
  after_lookup normalized target no_cache ttl (some existing) =
      if_else no_cache (refetch normalized target existing) (pure (result_of target existing true))

  unfoldable pub ensure_url :
      List CacheRule → String → Bool → Option String → Option String → ℕ → Exec W EnsureUrlResult
  ensure_url rules url no_cache tmp_id preferred_alias_suffix capability_ttl_seconds = do
    normalized ← lift (as_request_error (normalize_url tools url))
    target ← lift (choose_target rules tmp_id preferred_alias_suffix normalized)
    existing ← services.resolve target.bucket target.relative_alias
    after_lookup normalized target no_cache capability_ttl_seconds existing

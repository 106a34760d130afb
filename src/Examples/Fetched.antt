-- ===== src/Examples/Fetched.antt =====
-- The fetcher's theorems at a concrete input: one image, and a store of aliases.
use prototype_cache.Prelude.{String, true, false, ◌≡◌, ◌⊎◌, ◌↔◌, refl, none, some, [], ◌∷◌}
use Prim.Native.String.{◌++◌}
use prototype_cache.Prelude.Text.{
  strip, rstrip, split, join, is_space, is_slash, slashed, ends_with,
}
use prototype_cache.Prelude.Dict.{Dict, lookup, insert, text_key}
use prototype_cache.Errors.{ok, err, service_auth}
use prototype_cache.Exec.{pure}
use prototype_cache.Fetcher.Urls.{
  SplitUrl, UrlTools, NormalizedUrl, canonical, normalize_url, path_segments, without_default,
  clean_path,
}
use prototype_cache.Fetcher.Rules.{
  default_rule_set, evaluate, match_rule, host_matches, after_prefix, with_query,
}
use prototype_cache.Fetcher.Ensure.{
  StoredAsset, FetchedContent, Services, EnsureUrlResult, Target, choose_target, ensure_url,
  as_request_error,
}
use prototype_cache.Fetcher.Reuse.{ensure_url-keeps}
use prototype_cache.ServiceIdentity.{
  ServiceCredentialStore, new_credentials, clean_credentials, authenticate,
}
use prototype_cache.ServiceIdentity.Proof.{authenticate_iff, new_credentials-refuse}

abbrev image_url : SplitUrl
image_url = record {
  scheme = "https";
  hostname = some "images.example.org";
  port = ok (some 443);
  path = "/a/b.jpg";
  query = "";
}

abbrev tools : UrlTools
tools = record {
  urlsplit = λ raw. ok image_url;
  unquote = λ path. path;
  lower = λ t. t;
  numeral = λ n. "0";
  int = λ t. none;
}

abbrev World : Type 0
World = Dict String StoredAsset

abbrev kept : StoredAsset
kept = record { asset_id = "asset-0"; checksum = "sha256:0" }

abbrev services : Services World
services = record {
  resolve = λ space alias w. (ok (lookup (slashed space alias) w), w);
  mint_write_capability = λ scope_prefix ttl_seconds. pure "c1";
  put_object =
      λ capability_id qualified_alias content mime w. (ok kept, insert qualified_alias kept w);
  fetch = λ url. pure (record { content = 1 ∷ []; mime = "image/jpeg" });
  digest = λ content. "0";
  short_digest = λ t. t;
}

abbrev image : String
image = "https://images.example.org:443/a/b.jpg"

abbrev clean_image : NormalizedUrl
clean_image = record {
  scheme = "https";
  host = "images.example.org";
  port = none;
  path = "/a/b.jpg";
  query = "";
}

abbrev in_cache : Target
in_cache = record { bucket = "cache"; partition_id = "example"; relative_alias = "example/a/b.jpg" }

abbrev filled_world : World
filled_world = ("cache/example/a/b.jpg", kept) ∷ []

cleaned : as_request_error (normalize_url tools image) ≡ ok clean_image
unfolding normalize_url without_default clean_path strip rstrip is_space is_slash
cleaned = refl

targeted : choose_target tools services default_rule_set none none clean_image ≡ ok in_cache
unfolding choose_target evaluate match_rule path_segments host_matches after_prefix with_query split
    join is_slash ends_with
targeted = refl

bound : (services.resolve "cache" "example/a/b.jpg" filled_world).0 ≡ ok (some kept)
unfolding lookup
bound = refl

ensure_url-keeps_example :
    let fetch = services.fetch (canonical tools clean_image) filled_world in
    let out = ensure_url tools services default_rule_set image true none none 3600 filled_world in
    ((out.1 ≡ filled_world) ⊎ (out.1 ≡ fetch.1))
    × ((r : EnsureUrlResult)
        → out.0 ≡ ok r
        → (r.asset_id ≡ "asset-0")
          × ((true ≡ false)
              ⊎ ((fetched : FetchedContent) × (fetch.0 ≡ ok fetched)
                  × ("sha256:" ++ services.digest fetched.content ≡ "sha256:0"))))
ensure_url-keeps_example =
    ensure_url-keeps tools services default_rule_set image true none none 3600 filled_world
      clean_image in_cache kept cleaned targeted bound

abbrev credentials : ServiceCredentialStore
credentials = record { secrets = ("fetcher", "s3cret") ∷ [] }

authenticate_iff_example : (authenticate " fetcher " "s3cret" credentials ≡ ok "fetcher") ↔ (
    ("fetcher" ≡ strip is_space " fetcher ")
    × (lookup "fetcher" credentials.secrets ≡ some "s3cret"))
authenticate_iff_example = authenticate_iff credentials " fetcher " "s3cret" "fetcher"

made : new_credentials (("fetcher", "s3cret") ∷ []) ≡ ok credentials
unfolding new_credentials clean_credentials insert strip is_space
made = refl

new_credentials-refuse_example : authenticate " " "x" credentials ≡ err service_auth
unfolding strip is_space
new_credentials-refuse_example =
    new_credentials-refuse (("fetcher", "s3cret") ∷ []) credentials " " "x" made refl

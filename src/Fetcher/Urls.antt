-- ===== src/Fetcher/Urls.antt =====
-- src/fetcher_service/normalize.py: `normalize_url`. `urlsplit`, `unquote`, `str.lower` and the
-- decimal numerals are parameters.
use Prim.Native.String.{◌++◌}
use prototype_cache.Prelude.{
  ℕ, String, not, ◌&&◌, ◌||◌, Option, none, some, List, nat_eq, str_eq, get_or, keep, if◌then◌else◌,
}
use prototype_cache.Prelude.Int.{ℤ}
use prototype_cache.Prelude.Text.{strip, rstrip, split, is_space, is_slash}
use prototype_cache.Errors.{Result, ok, invalid_url, raise_if, ◌>>=◌, ◌>>◌}

-- What `urlsplit` returns, with the properties that the code reads; reading the port may raise.
pub record SplitUrl : Type 0 where
  pub scheme : String
  pub hostname : Option String
  pub port : Result (Option ℕ)
  pub path : String
  pub query : String

pub record UrlTools : Type 0 where
  pub urlsplit : String → Result SplitUrl
  pub unquote : String → String
  pub lower : String → String
  -- `str(n)`, and `int(s)` where it does not raise
  pub numeral : ℤ → String
  pub int : String → Option ℤ

pub record NormalizedUrl : Type 0 where
  pub scheme : String
  pub host : String
  pub port : Option ℕ
  pub path : String
  pub query : String

module _ (tools : UrlTools) where
  abbrev authority : NormalizedUrl → String
  authority url = elim url.port [
    | none ↦ url.host
    | some n ↦ url.host ++ (":" ++ tools.numeral (ℤ.pos n))
  ]

  unfoldable pub canonical : NormalizedUrl → String
  canonical url =
      let base = url.scheme ++ ("://" ++ (authority url ++ url.path)) in
      if str_eq url.query "" then base else base ++ ("?" ++ url.query)

  unfoldable pub path_segments : NormalizedUrl → List String
  path_segments url = keep (λ segment. not (str_eq segment "")) (split url.path)

  -- `_DEFAULT_PORTS.get(scheme) == port`, and then there is none
  unfoldable pub without_default : String → Option ℕ → Option ℕ
  without_default scheme none = none
  without_default scheme (some n) =
      if str_eq scheme "http" && nat_eq n 80 || str_eq scheme "https" && nat_eq n 443
      then none
      else some n

  -- the path: the slashes at its end are dropped, unless it is one slash only
  unfoldable pub clean_path : String → String
  clean_path raw =
      let decoded = tools.unquote raw in
      let path = if str_eq decoded "" then "/" else decoded in
      if str_eq path "/" then path else rstrip is_slash path

  unfoldable pub normalize_url : String → Result NormalizedUrl
  normalize_url raw = do
    raise_if (str_eq (strip is_space raw) "") invalid_url
    parts ← tools.urlsplit (strip is_space raw)
    let scheme = tools.lower parts.scheme
    raise_if (not (str_eq scheme "http" || str_eq scheme "https")) invalid_url
    let host = get_or parts.hostname ""
    raise_if (str_eq host "") invalid_url
    port ← parts.port
    ok (record {
      scheme = scheme;
      host = tools.lower host;
      port = without_default scheme port;
      path = clean_path parts.path;
      query = parts.query;
    })

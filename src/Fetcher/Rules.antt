-- ===== src/Fetcher/Rules.antt =====
-- src/fetcher_service/rules.py: the rules that name the cached copy of a URL.
use Prim.Native.Char.{Char, code}
use Prim.Native.String.{◌++◌}
use prototype_cache.Prelude.{
  String, Bool, ◌||◌, Option, none, some, List, [], ◌∷◌, nat_eq, str_eq, if◌then◌else◌,
}
use prototype_cache.Prelude.Text.{join, ends_with, partition_on, rpartition_on}
use prototype_cache.Fetcher.Urls.{UrlTools, NormalizedUrl, path_segments}

-- `aliases[0]`, and the others
pub record RuleMatch : Type 0 where
  pub mirror_id : String
  pub primary_alias : String
  pub others : List String

pub data CacheRule : Type 0 where
  iiif_image : (host mirror_id : String) (path_prefix : List String) → CacheRule
  host_passthrough : (host mirror_id : String) → CacheRule
  -- the pattern and the template together: `none` where `fullmatch` finds none
  regex : (host mirror_id : String) (fill : String → Option String) → CacheRule

-- `_host_matches`
unfoldable pub host_matches : NormalizedUrl → String → Bool
host_matches url host = str_eq url.host host || ends_with url.host ("." ++ host)

abbrev pub reverse_onto : List String → List String → List String
reverse_onto [] ys = ys
reverse_onto (x ∷ xs) ys = reverse_onto xs (x ∷ ys)

-- what follows the prefix, where the segments begin with it
unfoldable pub after_prefix : List String → List String → Option (List String)
after_prefix [] segments = some segments
after_prefix (p ∷ ps) [] = none
after_prefix (p ∷ ps) (s ∷ segments) =
    let rest = after_prefix ps segments in if str_eq s p then rest else none

abbrev is_dot : Char → Bool
is_dot c = nat_eq (code c) 46

abbrev is_bang : Char → Bool
is_bang c = nat_eq (code c) 33

-- `?query`, where there is one
unfoldable pub with_query : NormalizedUrl → String → String
with_query url tail = if str_eq url.query "" then tail else tail ++ ("?" ++ url.query)

module _ (tools : UrlTools) where
  -- the rotation and its part after a leading `!`
  abbrev canonical_rotation : String → Option (String × String) → String
  canonical_rotation rotation (some (String.[], body)) = elim (tools.int body) [
    | none ↦ rotation
    | some n ↦ "!" ++ tools.numeral n
  ]
  canonical_rotation rotation _ = elim (tools.int rotation) [
    | none ↦ rotation
    | some n ↦ tools.numeral n
  ]

  -- `_normalize_rotation`
  unfoldable pub normalize_rotation : String → String
  normalize_rotation rotation = canonical_rotation rotation (partition_on is_bang rotation)

  -- `_IIIF_QUALITY_ALIASES.get(quality.lower(), quality.lower())`
  unfoldable pub normalize_quality : String → String
  normalize_quality quality =
      let q = tools.lower quality in if str_eq q "native" then "default" else q

  -- the parts of the tail, the last one first
  unfoldable pub iiif_tail : List String → Option String
  unfolding normalize_rotation normalize_quality
  iiif_tail (quality_format ∷ rotation ∷ size ∷ region ∷ identifier ∷ more) =
      elim (rpartition_on is_dot quality_format) [
        | none ↦ none
        | some (quality, format) ↦
            let resource_id = join (reverse_onto (identifier ∷ more) []) in
            if str_eq resource_id ""
            then none
            else some (
                join (
                  "iiif"
                  ∷ resource_id
                  ∷ tools.lower region
                  ∷ tools.lower size
                  ∷ normalize_rotation rotation
                  ∷ (normalize_quality quality ++ ("." ++ tools.lower format))
                  ∷ []))
      ]
  iiif_tail _ = none

  abbrev named : String → Option String → Option RuleMatch
  named mirror_id none = none
  named mirror_id (some tail) =
      some (record { mirror_id = mirror_id; primary_alias = tail; others = [] })

  abbrev passthrough_tail : NormalizedUrl → List String → Option String
  passthrough_tail url [] = none
  passthrough_tail url segments = some (with_query url (join segments))

  abbrev filled : NormalizedUrl → Option String → Option String
  filled url none = none
  filled url (some tail) = some (with_query url tail)

  abbrev tail_of : Option (List String) → Option String
  tail_of none = none
  tail_of (some segments) = iiif_tail (reverse_onto segments [])

  -- `match` of each rule
  unfoldable pub match_rule : CacheRule → NormalizedUrl → Option RuleMatch
  unfolding iiif_tail after_prefix with_query
  match_rule (iiif_image host mirror_id path_prefix) url =
      if host_matches url host
      then named mirror_id (tail_of (after_prefix path_prefix (path_segments tools url)))
      else none
  match_rule (host_passthrough host mirror_id) url =
      if host_matches url host
      then named mirror_id (passthrough_tail url (path_segments tools url))
      else none
  match_rule (regex host mirror_id fill) url =
      if host_matches url host
      then named mirror_id (filled url (fill (join (path_segments tools url))))
      else none

  -- `RuleSet.evaluate`
  unfoldable pub evaluate : List CacheRule → NormalizedUrl → Option RuleMatch
  evaluate [] url = none
  evaluate (rule ∷ rest) url =
      let later = evaluate rest url in
      elim (match_rule rule url) [ some found ↦ some found | none ↦ later ]

abbrev pub default_rule_set : List CacheRule
default_rule_set =
    iiif_image "gallica.bnf.fr" "gallica" ("iiif" ∷ [])
    ∷ host_passthrough "images.example.org" "example"
    ∷ []

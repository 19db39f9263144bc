-- ===== src/PageParser/Bodies.antt =====
-- internal/pageparser: the links of JSON, and of any body as `LegacyAdapter.Parse` finds them, from
-- page_parser_basic_json.go and adapter.go, with `GetBaseURL` of internal/utils/utils.go.
use project_arachne.Prelude.{
  ℕ, List, [], ◌∷◌, ◌++◌, ◌||◌, Option, none, some, if◌then◌else◌, ◌==◌, nat_eq, list_eq, is_seen,
  Text, codes,
}
use project_arachne.Strings.{has_suffix, is_empty, trim_space}
use project_arachne.Urlnorm.{Url, NetUrl}
use project_arachne.PageParser.Urls.{resolve_and_add, looks_like_relative_path}
use project_arachne.PageParser.Trees.{
  Json, object, array, string, scalar, Members, no_member, member, Values, no_value, value, Parsers,
}
use project_arachne.PageParser.Pages.{
  base_of, Extracted, unfinished, refused, found, extract_links_from_js, parse_html,
}

unfoldable pub resolve_all : NetUrl → Option Url → List Text → List Text → List Text
resolve_all net base [] seen = seen
resolve_all net base (m ∷ matches) seen =
    resolve_all net base matches (resolve_and_add net base m seen)

-- One string of the JSON value: the closure `add`.
unfoldable pub add_trimmed : NetUrl → Option Url → Text → List Text → List Text → List Text
add_trimmed net base s [] seen =
    if looks_like_relative_path s then resolve_and_add net base s seen else seen
add_trimmed net base s (m ∷ matches) seen = resolve_all net base (m ∷ matches) seen

unfoldable pub add_string : NetUrl → Parsers → Option Url → Text → List Text → List Text
add_string net p base s seen =
    let trimmed = trim_space s in
    if is_empty trimmed then seen else add_trimmed net base trimmed (p.find_urls trimmed) seen

unfoldable mutual
  pub walk_json : NetUrl → Parsers → Option Url → Json → List Text → List Text
  walk_json net p base (object members) seen = walk_members net p base members seen
  walk_json net p base (array values) seen = walk_values net p base values seen
  walk_json net p base (string s) seen = add_string net p base s seen
  walk_json net p base scalar seen = seen

  pub walk_members : NetUrl → Parsers → Option Url → Members → List Text → List Text
  walk_members net p base no_member seen = seen
  walk_members net p base (member key v members) seen =
      walk_members net p base members (walk_json net p base v seen)

  pub walk_values : NetUrl → Parsers → Option Url → Values → List Text → List Text
  walk_values net p base no_value seen = seen
  walk_values net p base (value v values) seen =
      walk_values net p base values (walk_json net p base v seen)

unfoldable pub extract_links_from_json : NetUrl → Parsers → Text → Text → Option (List Text)
extract_links_from_json net p base_url body = elim (p.parse_json body) [
  | none ↦ none
  | some root ↦ some (walk_json net p (base_of net base_url) root [])
]

unfoldable pub get_base_url : NetUrl → Text → Option Text
get_base_url net raw = elim (net.parse raw) [
  | none ↦ none
  | some u ↦ some (net.to_string (record u { path = []; raw_query = []; fragment = [] }))
]

unfoldable pub trim_slash : Text → Text
trim_slash [] = []
trim_slash (c ∷ []) = if c == b'/' then [] else c ∷ []
trim_slash (c ∷ d ∷ s) = c ∷ trim_slash (d ∷ s)

unfoldable pub links_or_none : Option (List Text) → List Text
links_or_none none = []
links_or_none (some links) = links

-- `LegacyAdapter.extract`.
unfoldable pub extract : ℕ → NetUrl → Parsers → Text → Text → Extracted
extract fuel net p base_url body =
    if has_suffix (codes ".js") (trim_slash base_url)
    then elim (get_base_url net base_url) [
      | none ↦ refused
      | some base ↦ extract_links_from_js fuel net p base body
    ]
    else elim (parse_html fuel net p body base_url) [
      | none ↦ unfinished
      | some links ↦ found (links ++ links_or_none (extract_links_from_json net p base_url body))
    ]

unfoldable pub dedupe_from : List Text → List Text → List Text
dedupe_from seen [] = []
dedupe_from seen (link ∷ links) =
    if is_empty link || is_seen link seen
    then dedupe_from seen links
    else link ∷ dedupe_from (link ∷ seen) links

-- The links that a page is followed to, each of the kind of a page.
unfoldable pub dedupe : List Text → List Text
dedupe = dedupe_from []

unfoldable pub deduped : Extracted → Extracted
deduped unfinished = unfinished
deduped refused = refused
deduped (found links) = found (dedupe links)

-- `LegacyAdapter.Parse`.
unfoldable pub parse : ℕ → NetUrl → Parsers → Text → Text → Extracted
parse fuel net p base_url body =
    if is_empty body then refused else deduped (extract fuel net p base_url body)

-- ===== src/PageParser/Pages.antt =====
-- internal/pageparser/page_parser_basic_html.go: the links of HTML, with those of a script.
use project_arachne.Prelude.{
  ℕ, List, [], ◌∷◌, ◌++◌, Bool, ◌&&◌, ◌||◌, Option, none, some, map, if◌then◌else◌, ◌==◌, nat_eq,
  list_eq, is_seen, Text, codes,
}
use project_arachne.Strings.{has_suffix, is_empty, trim_space, split, fields}
use project_arachne.Urlnorm.{Url, NetUrl}
use project_arachne.PageParser.Urls.{trim_trailing_punctuation, put_seen, add_normalized}
use project_arachne.PageParser.Calls.{script_links}
use project_arachne.PageParser.Trees.{
  Node, text, comment, element, other, Nodes, last, child, Parsers, scan_text,
}

-- The URL to resolve against: no text and a bad URL give none.
unfoldable pub base_of : NetUrl → Text → Option Url
base_of net raw = if is_empty raw then none else net.parse raw

unfoldable pub text_of : Option Url → NetUrl → Text
text_of none net = []
text_of (some base) net = net.to_string base

-- A script that the parser refuses gives no result; one whose loop does not end gives an unfinished one.
pub data Extracted : Type 0 where
  unfinished : Extracted
  refused : Extracted
  found : List Text → Extracted

unfoldable pub as_extracted : Option (List Text) → Extracted
as_extracted none = unfinished
as_extracted (some links) = found links

abbrev pub attrs_with_urls : List Text
attrs_with_urls =
    codes "href"
    ∷ codes "src"
    ∷ codes "srcset"
    ∷ codes "data-src"
    ∷ codes "data-srcset"
    ∷ codes "data-href"
    ∷ codes "action"
    ∷ codes "formaction"
    ∷ codes "poster"
    ∷ codes "cite"
    ∷ codes "background"
    ∷ codes "manifest"
    ∷ codes "longdesc"
    ∷ codes "ping"
    ∷ codes "data"
    ∷ codes "codebase"
    ∷ codes "archive"
    ∷ codes "dynsrc"
    ∷ codes "lowsrc"
    ∷ []

unfoldable pub extract_links_from_js : ℕ → NetUrl → Parsers → Text → Text → Extracted
extract_links_from_js fuel net p base_url src = elim (p.parse_js src) [
  | none ↦ refused
  | some script ↦
      as_extracted (script_links fuel net (base_of net base_url) script (p.find_urls src))
]

unfoldable pub attr : Parsers → List (Text × Text) → Text → Text
attr p [] name = []
attr p ((key, val) ∷ attrs) name =
    let rest = attr p attrs name in if p.equal_fold key name then val else rest

unfoldable pub is_javascript_type : (ℕ → ℕ) → Text → Bool
is_javascript_type lower t =
    let kind = trim_space (map lower t) in
    is_seen kind (
      []
      ∷ codes "module"
      ∷ codes "text/javascript"
      ∷ codes "application/javascript"
      ∷ codes "application/ecmascript"
      ∷ codes "text/ecmascript"
      ∷ [])
    || has_suffix (codes "javascript") kind
    || has_suffix (codes "ecmascript") kind

-- The text children of a node.
unfoldable pub text_children : Nodes → Text
text_children last = []
text_children (child (text s) nodes) = s ++ text_children nodes
text_children (child _ nodes) = text_children nodes

unfoldable pub put_all : List Text → List Text → List Text
put_all [] seen = seen
put_all (u ∷ urls) seen = put_all urls (put_seen u seen)

unfoldable pub put_extracted : Extracted → List Text → Option (List Text)
put_extracted unfinished seen = none
put_extracted refused seen = some seen
put_extracted (found links) seen = some (put_all links seen)

-- A script element without a `src` whose type is JavaScript.
unfoldable pub is_inline_script : NetUrl → Parsers → Text → List (Text × Text) → Bool
is_inline_script net p name attrs =
    p.equal_fold name (codes "script")
    && is_javascript_type net.lower (attr p attrs (codes "type"))
    && is_empty (attr p attrs (codes "src"))

unfoldable pub add_script :
    ℕ → NetUrl → Parsers → Option Url → Text → List Text → Option (List Text)
add_script fuel net p base js seen =
    if is_empty js
    then some seen
    else put_extracted (extract_links_from_js fuel net p (text_of base net) js) seen

unfoldable pub first_field : List Text → Text
first_field [] = []
first_field (f ∷ rest) = f

unfoldable pub add_candidates : NetUrl → Option Url → List Text → List Text → List Text
add_candidates net base [] seen = seen
add_candidates net base (part ∷ parts) seen = add_candidates net base parts (
    if is_empty (trim_space part)
    then seen
    else add_normalized net base (first_field (fields (trim_space part))) seen)

unfoldable pub extract_from_srcset : NetUrl → Option Url → Text → List Text → List Text
extract_from_srcset net base val = add_candidates net base (split b',' val)

unfoldable pub is_srcset : Text → Bool
is_srcset key = key == codes "srcset" || key == codes "data-srcset"

unfoldable pub add_attr : NetUrl → Option Url → Text × Text → List Text → List Text
add_attr net base (key, val) seen =
    if is_seen key attrs_with_urls
    then if is_srcset key
      then extract_from_srcset net base val seen
      else add_normalized net base val seen
    else seen

unfoldable pub add_attrs : NetUrl → Option Url → List (Text × Text) → List Text → List Text
add_attrs net base [] seen = seen
add_attrs net base (a ∷ attrs) seen = add_attrs net base attrs (add_attr net base a seen)

-- The part of `extractLinksFromNode` about the element itself.
unfoldable pub add_element :
    ℕ
    → NetUrl
    → Parsers
    → Option Url
    → Text
    → List (Text × Text)
    → Nodes
    → List Text
    → Option (List Text)
add_element fuel net p base name attrs children seen =
    elim (if is_inline_script net p name attrs
      then add_script fuel net p base (trim_space (text_children children)) seen
      else some seen) [
        | none ↦ none
        | some with_script ↦ some (add_attrs net base attrs with_script)
      ]

-- The links found in a tree are none if a script in it is unfinished.
unfoldable mutual
  pub extract_links_from_node :
      ℕ → NetUrl → Parsers → Option Url → Node → Option (List Text) → Option (List Text)
  extract_links_from_node fuel net p base node none = none
  extract_links_from_node fuel net p base (text s) (some seen) = some seen
  extract_links_from_node fuel net p base (comment s) (some seen) = some seen
  extract_links_from_node fuel net p base (element name attrs children inner) (some seen) =
      extract_from_children fuel net p base children
        (add_element fuel net p base name attrs children seen)
  extract_links_from_node fuel net p base (other children) (some seen) =
      extract_from_children fuel net p base children (some seen)

  pub extract_from_children :
      ℕ → NetUrl → Parsers → Option Url → Nodes → Option (List Text) → Option (List Text)
  extract_from_children fuel net p base last seen = seen
  extract_from_children fuel net p base (child node nodes) seen =
      extract_from_children fuel net p base nodes
        (extract_links_from_node fuel net p base node seen)

unfoldable pub add_matches : NetUrl → Option Url → List Text → List Text → List Text
add_matches net base [] seen = seen
add_matches net base (m ∷ matches) seen =
    let url = trim_trailing_punctuation (trim_space m) in
    add_matches net base matches (if is_empty url then seen else add_normalized net base url seen)

unfoldable pub regex_fallback :
    NetUrl → Parsers → Option Url → Text → Option (List Text) → Option (List Text)
regex_fallback net p base body none = none
regex_fallback net p base body (some seen) = some (add_matches net base (p.find_urls body) seen)

unfoldable pub parse_html : ℕ → NetUrl → Parsers → Text → Text → Option (List Text)
parse_html fuel net p body raw_base =
    let base = base_of net raw_base in
    elim (p.parse_html body) [
      | none ↦ regex_fallback net p base body (some [])
      | some doc ↦
          regex_fallback net p base (scan_text doc)
            (extract_links_from_node fuel net p base doc (some []))
    ]

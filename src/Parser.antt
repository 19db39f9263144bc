-- ===== src/Parser.antt =====
-- internal/parser: the links and the text of a body, from parser_katana.go, links.go, url.go and
-- content.go. goquery, katana, readability, xurls, encoding/json and mime are not part of the
-- repository: `Engines` holds what the code asks of them, with a document of any type.
pub mod Links
pub mod Found
pub mod Best
pub mod Kinds
pub mod Blocks
pub mod Clean
pub mod Normal
pub mod Whole
use project_arachne.Prelude.{
  ℕ, zero, suc, ◌+◌, ◌-◌, List, [], ◌∷◌, ◌++◌, map, Bool, true, false, not, ◌&&◌, ◌||◌, Option,
  none, some, leb, ltb, if◌then◌else◌, ◌==◌, nat_eq, list_eq, lookup, insert, length, Text, codes,
}
use project_arachne.Strings.{
  has_prefix, has_suffix, is_empty, trim_space, split, fields, join, up_to,
}
use project_arachne.Urlnorm.{Url, NetUrl, canonical}
use project_arachne.VectorStore.{width}
use project_arachne.PageParser.Urls.{has_any}
use project_arachne.PageParser.Trees.{
  Node, Json, object, array, string, scalar, Members, no_member, member, Values, no_value, value,
  scan_text,
}

pub data LinkKind : Type 0 where
  link_page link_other : LinkKind

pub record Link : Type 0 where
  pub url : Text
  pub kind : LinkKind

pub data Stage : Type 0 where
  stage_content stage_links stage_json : Stage

-- `accumulator`, with the stages of its warnings.
pub record Accumulator : Type 0 where
  pub base : Option Url
  pub index : List (Text × ℕ)
  pub links : List Link
  pub warnings : List Stage

unfoldable pub new_accumulator : Option Url → Accumulator
new_accumulator base = record { base = base; index = []; links = []; warnings = [] }

-- The empty text stands for no URL.
unfoldable pub normalize_url : NetUrl → Text → Option Url → Text
normalize_url net raw base = elim (canonical net raw base) [ none ↦ [] | some url ↦ url ]

unfoldable pub set_page : ℕ → List Link → List Link
set_page i [] = []
set_page zero (l ∷ links) = record l { kind = link_page } ∷ links
set_page (suc i) (l ∷ links) = l ∷ set_page i links

unfoldable pub upgrade : LinkKind → ℕ → List Link → List Link
upgrade link_page i links = set_page i links
upgrade link_other i links = links

unfoldable pub add_normalized : Text → LinkKind → Accumulator → Accumulator
add_normalized url kind acc = elim (lookup url acc.index) [
  | some i ↦ record acc { links = upgrade kind i acc.links }
  | none ↦ record acc {
    index = insert url (length acc.links) acc.index;
    links = acc.links ++ record { url = url; kind = kind } ∷ [];
  }
]

unfoldable pub add : NetUrl → Text → LinkKind → Accumulator → Accumulator
add net raw kind acc =
    let normalized = normalize_url net raw acc.base in
    if is_empty normalized then acc else add_normalized normalized kind acc

unfoldable pub warn : Stage → Accumulator → Accumulator
warn stage acc = record acc { warnings = acc.warnings ++ stage ∷ [] }

unfoldable pub add_all : NetUrl → List (Text × LinkKind) → Accumulator → Accumulator
add_all net [] acc = acc
add_all net ((raw, kind) ∷ items) acc = add_all net items (add net raw kind acc)

-- What readability makes of a body.
pub data Article : Type 0 where
  unreadable no_node not_rendered : Article
  article : Text → Text → Article

pub record Engines (D : Type 0) : Type 0 where
  pub document_from : Text → Option D
  -- `doc.Nodes[0]`, if there is one.
  pub root : D → Option Node
  -- The attributes `href` and `src` of each hyperlink.
  pub hyperlinks : D → List (Option Text × Option Text)
  -- The URLs of the requests that katana finds, nil ones left out.
  pub katana : Text → Url → Text → Option D → List Text
  pub loose_urls : Text → List Text
  pub decode_json : Text → Option Json
  pub is_valid_json : Text → Bool
  pub parse_media_type : Text → Option Text
  pub read : Text → Option Url → Option D → Article
  -- The texts of the first <title> and of the first <h1>.
  pub title_text : D → Text
  pub heading_text : D → Text
  -- The texts that are left without what is not to be indexed.
  pub inner_texts : D → List Text

pub data BodyKind : Type 0 where
  kind_html kind_json kind_js kind_text : BodyKind

-- Whether the text stands somewhere in the other.
unfoldable pub contains : Text → Text → Bool
contains p [] = is_empty p
contains p (c ∷ s) = has_prefix p (c ∷ s) || contains p s

unfoldable pub is_html : Text → Bool
is_html t = t == codes "text/html" || t == codes "application/xhtml+xml"

unfoldable pub is_json : Text → Bool
is_json t = t == codes "application/json" || has_suffix (codes "+json") t

unfoldable pub is_javascript : Text → Bool
is_javascript t = contains (codes "javascript") t || has_suffix (codes "ecmascript") t

-- The characters that lie whole in so many bytes.
unfoldable pub first_bytes : ℕ → Text → Text
first_bytes n [] = []
first_bytes n (c ∷ s) =
    let rest = first_bytes (n - width c) s in if leb (width c) n then c ∷ rest else []

-- A character that the limit cuts in two is no part of what is looked for.
unfoldable pub looks_like_html : (ℕ → ℕ) → Text → Bool
looks_like_html lower body =
    let head = map lower (first_bytes 1024 body) in
    contains (codes "<html") head
    || contains (codes "<!doctype html") head
    || contains (codes "<body") head

unfoldable pub classify_body : (ℕ → ℕ) → (Text → Bool) → Text → Text → BodyKind
classify_body lower is_valid_json media_type body =
    if is_html media_type
    then kind_html
    else if is_json media_type
    then kind_json
    else if is_javascript media_type
    then kind_js
    else if has_prefix (codes "text/plain") media_type
    then kind_text
    else if is_valid_json body
    then kind_json
    else if looks_like_html lower body
    then kind_html
    else kind_text

unfoldable pub normalize_content_type : (ℕ → ℕ) → (Text → Option Text) → Text → Text
normalize_content_type lower parse_media_type raw =
    let t = trim_space (map lower raw) in
    if is_empty t then [] else elim (parse_media_type t) [
      | some media_type ↦ media_type
      | none ↦ if has_any (codes ";") t then trim_space (up_to b';' t) else t
    ]

unfoldable pub looks_like_url : (Text → ℕ) → Text → Bool
looks_like_url byte_length raw =
    let s = trim_space raw in
    if is_empty s || ltb 2048 (byte_length s) || has_any (codes " \t\r\n\"'<>{}|\\^`") s
    then false
    else has_prefix (codes "http://") s
      || has_prefix (codes "https://") s
      || has_prefix (codes "//") s
      || has_prefix (codes "/") s
      || has_prefix (codes "./") s
      || has_prefix (codes "../") s

unfoldable pub parse_base_url : NetUrl → Text → Option Url
parse_base_url net raw = elim (net.parse (trim_space raw)) [
  | none ↦ none
  | some u ↦ if is_empty u.scheme then none else some u
]

-- The strings of a JSON value, down to a depth: `left` is how many levels are left below `maxJSONDepth`,
-- and one more.
unfoldable mutual
  pub json_strings : ℕ → Json → List Text
  json_strings zero j = []
  json_strings (suc left) (string s) = s ∷ []
  json_strings (suc left) (array values) = value_strings left values
  json_strings (suc left) (object members) = member_strings left members
  json_strings (suc left) scalar = []

  pub value_strings : ℕ → Values → List Text
  value_strings left no_value = []
  value_strings left (value j values) = json_strings left j ++ value_strings left values

  pub member_strings : ℕ → Members → List Text
  member_strings left no_member = []
  member_strings left (member key j members) = json_strings left j ++ member_strings left members

-- ===== src/PageParser/Urls.antt =====
-- internal/pageparser: which texts are taken for URLs, and how they are cleaned, from
-- page_parser_basic.go, page_parser_basic_html.go and page_parser_basic_json.go.
use mathlib.Core.List.{reverse}
use project_arachne.Prelude.{
  ℕ, List, [], ◌∷◌, map, Bool, true, false, not, ◌&&◌, ◌||◌, Option, none, some, if◌then◌else◌,
  ◌==◌, nat_eq, list_eq, is_seen, Text, codes,
}
use project_arachne.Strings.{trim_space, is_empty, has_prefix, up_to, cut_at}
use project_arachne.Urlnorm.{Url, NetUrl, canonical}

unfoldable pub trim_left_by : (ℕ → Bool) → Text → Text
trim_left_by test [] = []
trim_left_by test (c ∷ s) = elim (test c) [ true ↦ trim_left_by test s | false ↦ c ∷ s ]

unfoldable pub trim_right_by : (ℕ → Bool) → Text → Text
trim_right_by test s = reverse (trim_left_by test (reverse s))

unfoldable pub one_of : Text → ℕ → Bool
one_of chars c = is_seen c chars

unfoldable pub is_url_candidate : Text → Bool
is_url_candidate s = not (is_empty (trim_space s))

unfoldable pub trim_trailing_punctuation : Text → Text
trim_trailing_punctuation = trim_right_by (one_of (codes ".,;:!?)]}'\""))

unfoldable pub check_allowed_prefixes : (ℕ → ℕ) → Text → Bool
check_allowed_prefixes lower url =
    let low = map lower url in
    has_prefix (codes "http://") low
    || has_prefix (codes "https://") low
    || has_prefix (codes "/") low
    || has_prefix (codes "./") low
    || has_prefix (codes "../") low

-- A colon stands in front of any '/', '?' and '#'.
unfoldable pub colon_first : Text → Bool
colon_first [] = false
colon_first (c ∷ s) =
    let rest = colon_first s in
    if c == b':' then true else if one_of (codes "/?#") c then false else rest

-- The empty text stands for no URL.
unfoldable pub normalize_url : (ℕ → ℕ) → Text → Text
normalize_url lower raw =
    let quoted = trim_space raw in
    let bare = trim_right_by (one_of (codes "\"'")) (trim_left_by (one_of (codes "\"'")) quoted) in
    let url = trim_space (up_to b'#' bare) in
    if not (check_allowed_prefixes lower url) && colon_first url
    then []
    else trim_space (trim_trailing_punctuation url)

-- A set of URLs, as `seen`.
unfoldable pub put_seen : Text → List Text → List Text
put_seen url seen = if is_seen url seen then seen else url ∷ seen

unfoldable pub resolve_and_add : NetUrl → Option Url → Text → List Text → List Text
resolve_and_add net base raw seen = elim (canonical net raw base) [
  | none ↦ seen
  | some url ↦ put_seen url seen
]

unfoldable pub add_normalized : NetUrl → Option Url → Text → List Text → List Text
add_normalized net base raw seen =
    let url = normalize_url net.lower raw in
    if is_empty url then seen else resolve_and_add net base url seen

-- `linkAdder.Add`.
unfoldable pub add_link : NetUrl → Option Url → Text → List Text → List Text
add_link net base s seen = if is_url_candidate s then add_normalized net base s seen else seen

unfoldable pub has_any : Text → Text → Bool
has_any chars [] = false
has_any chars (c ∷ s) = one_of chars c || has_any chars s

-- A dot stands behind the first character and in front of the last: the last dot of the text does.
unfoldable pub last_dot_inside : Text → Bool
last_dot_inside s = elim (cut_at b'.' (reverse s)) [
  | none ↦ false
  | some (after, before) ↦ not (is_empty after) && not (is_empty before)
]

unfoldable pub looks_like_relative_path : Text → Bool
looks_like_relative_path s =
    if is_empty s
    then false
    else if has_prefix (codes "data:") s || has_any (codes " \t\n\"<>") s
    then false
    else has_prefix (codes "/") s
      || has_prefix (codes "./") s
      || has_prefix (codes "../") s
      || has_prefix (codes "?") s
      || has_prefix (codes "#") s
      || has_any (codes "/") s
      || last_dot_inside s

-- ===== src/Urlnorm.antt =====
-- internal/urlnorm/urlnorm.go: the canonical form of a URL. Go's package net/url and the IDNA profile
-- are not part of the repository: `NetUrl` holds the functions of theirs that the code calls, and
-- `lower`, which is `unicode.ToLower`. The struct `url.URL` is the record `Url`.
pub mod Tracking
pub mod Hosts
pub mod Shape
use project_arachne.Prelude.{
  ℕ, ◌≡◌, List, [], ◌∷◌, ◌++◌, map, Bool, true, false, not, ◌&&◌, ◌||◌, Option, none, some, leb,
  if◌then◌else◌, ◌==◌, nat_eq, list_eq, filter, Text, codes,
}
use project_arachne.Strings.{trim_space, has_prefix, cut_at, up_to, split, join, is_empty}

pub record Url : Type 0 where
  pub scheme : Text
  pub opaque : Text
  pub user : Option Text
  pub host : Text
  pub path : Text
  pub raw_path : Text
  pub force_query : Bool
  pub raw_query : Text
  pub fragment : Text
  pub raw_fragment : Text

abbrev pub empty_url : Url
empty_url = record {
  scheme = [];
  opaque = [];
  user = none;
  host = [];
  path = [];
  raw_path = [];
  force_query = false;
  raw_query = [];
  fragment = [];
  raw_fragment = [];
}

-- What net/url, idna and unicode provide.
pub record NetUrl : Type 0 where
  pub parse : Text → Option Url
  pub hostname : Url → Text
  pub port : Url → Text
  -- `resolve base ref` is `base.ResolveReference(ref)`.
  pub resolve : Url → Url → Url
  pub to_string : Url → Text
  pub to_ascii : Text → Option Text
  pub lower : ℕ → ℕ

abbrev pub tracking_params : List Text
tracking_params =
    codes "gclid"
    ∷ codes "dclid"
    ∷ codes "fbclid"
    ∷ codes "msclkid"
    ∷ codes "yclid"
    ∷ codes "ysclid"
    ∷ codes "mc_cid"
    ∷ codes "mc_eid"
    ∷ codes "_openstat"
    ∷ codes "igshid"
    ∷ []

unfoldable pub contains {ℓ} : {A : Type ℓ} → (A → Bool) → List A → Bool
contains p [] = false
contains p (x ∷ xs) = p x || contains p xs

-- The tests of the loop of `stripTracking`: the pair is kept.
unfoldable pub keeps : (ℕ → ℕ) → Text → Bool
unfolding contains
keeps lower pair =
    let key = map lower (up_to b'=' pair) in
    not (is_empty pair)
    && not (contains (λ p. p == key) tracking_params || has_prefix (codes "utm_") key)

unfoldable pub strip_tracking : (ℕ → ℕ) → Text → Text
strip_tracking lower [] = []
strip_tracking lower (c ∷ q) = join (b'&' ∷ []) (filter (keeps lower) (split b'&' (c ∷ q)))

unfoldable pub is_letter : ℕ → Bool
is_letter c = (leb b'a' c && leb c b'z') || (leb b'A' c && leb c b'Z')

unfoldable pub is_digit : ℕ → Bool
is_digit c = leb b'0' c && leb c b'9'

-- The loop over what stands before the colon; the first character must be a letter.
unfoldable pub scheme_rest : Text → Bool
scheme_rest [] = true
scheme_rest (c ∷ s) =
    (is_letter c || is_digit c || c == b'+' || c == b'-' || c == b'.') && scheme_rest s

unfoldable pub scheme_chars : Text → Bool
scheme_chars [] = false
scheme_chars (c ∷ s) = is_letter c && scheme_rest s

unfoldable pub no_digit_first : Text → Bool
no_digit_first [] = true
no_digit_first (c ∷ s) = not (is_digit c)

unfoldable pub has_scheme : Text → Bool
has_scheme raw = elim (cut_at b':' raw) [
  | none ↦ false
  | some (before, after) ↦ scheme_chars before && no_digit_first after
]

-- `strings.TrimSuffix(s, ".")`.
unfoldable pub trim_dot : Text → Text
trim_dot [] = []
trim_dot (c ∷ []) = if c == b'.' then [] else c ∷ []
trim_dot (c ∷ d ∷ s) = c ∷ trim_dot (d ∷ s)

unfoldable pub is_default_port : Text → Text → Bool
is_default_port scheme port =
    is_empty port
    || (scheme == codes "http" && port == codes "80")
    || (scheme == codes "https" && port == codes "443")

unfoldable pub with_port : Text → Text → Text → Text
with_port scheme port host = if is_default_port scheme port then host else host ++ b':' ∷ port

unfoldable pub canonical_name : NetUrl → Text → Option Text
canonical_name net hostname = if is_empty hostname then none else elim (cut_at b':' hostname) [
  | none ↦ net.to_ascii hostname
  | some _ ↦ some (b'[' ∷ (hostname ++ b']' ∷ []))
]

unfoldable pub canonical_host : NetUrl → Url → Option Text
canonical_host net u = elim (canonical_name net (trim_dot (map net.lower (net.hostname u)))) [
  | none ↦ none
  | some host ↦ some (with_port u.scheme (net.port u) host)
]

-- A bare quote ends the URL.
unfoldable pub before_quote : Text → Text
before_quote raw = up_to 0x22 raw

unfoldable pub absolute : NetUrl → Option Url → Url → Option Url
absolute net base u =
    if not (is_empty u.scheme)
    then some u
    else elim base [ none ↦ none | some b ↦ some (net.resolve b u) ]

unfoldable pub rooted : Url → Url
rooted v = if is_empty v.path then record v { path = codes "/"; raw_path = [] } else v

unfoldable pub cleared : NetUrl → Url → Url
cleared net w = record w {
  raw_query = strip_tracking net.lower w.raw_query;
  force_query = false;
  fragment = [];
  raw_fragment = [];
}

-- The URL that is printed in the end.
unfoldable pub final_url : NetUrl → Url → Text → Url
final_url net u host =
    cleared net (rooted (net.resolve (record u { host = host; user = none }) empty_url))

unfoldable pub canonical_url : NetUrl → Url → Option Text
canonical_url net u =
    if u.scheme == codes "http" || u.scheme == codes "https"
    then elim (canonical_host net u) [
      | none ↦ none
      | some host ↦ some (net.to_string (final_url net u host))
    ]
    else none

unfoldable pub resolved : NetUrl → Option Url → Text → Option Url
resolved net base raw = elim (net.parse (before_quote raw)) [
  | none ↦ none
  | some u ↦ absolute net base u
]

unfoldable pub canonical : NetUrl → Text → Option Url → Option Text
canonical net raw base =
    let trimmed = trim_space raw in
    if is_empty trimmed || has_prefix (codes "#") trimmed
    then none
    else elim (resolved net base trimmed) [ none ↦ none | some u ↦ canonical_url net u ]

unfoldable pub from_user_input : NetUrl → Text → Option Text
from_user_input net raw =
    let trimmed = trim_space raw in
    if not (has_scheme trimmed) && not (has_prefix (codes "//") trimmed)
    then canonical net (codes "https://" ++ trimmed) none
    else canonical net trimmed none

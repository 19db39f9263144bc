-- ===== src/PageParser/Whole.antt =====
-- internal/pageparser/adapter.go: what `LegacyAdapter.Parse` returns for any body.
use project_arachne.Prelude.{
  ℕ, ◌≡◌, ◌≢◌, ◌⊎◌, true, refl, inl, inr, subst, All-mono, List, [], ◌∷◌, ◌++◌, false, ◌||◌, Option,
  none, some, arith, All, All-append, Bool-cases, Option-cases, Text, codes, is_seen, list_eq,
  nat_eq,
}
use project_arachne.Strings.{is_empty, trim_space, has_suffix}
use project_arachne.Urlnorm.{Url, NetUrl}
use project_arachne.Urlnorm.Shape.{NetLaws, IsCanonical, canonical-IsCanonical}
use project_arachne.PageParser.Urls.{put_seen, looks_like_relative_path}
use project_arachne.PageParser.Trees.{
  Json, object, array, string, scalar, Members, no_member, member, Values, no_value, value, Parsers,
}
use project_arachne.PageParser.Pages.{
  base_of, Extracted, unfinished, refused, found, extract_links_from_js, parse_html,
}
use project_arachne.PageParser.Bodies.{
  resolve_all, add_trimmed, add_string, walk_json, walk_members, walk_values,
  extract_links_from_json, get_base_url, trim_slash, links_or_none, extract, dedupe_from, dedupe,
  deduped, parse,
}
use project_arachne.PageParser.Finishing.{IsShortBody, parse-finishes}
use project_arachne.PageParser.Kept.{IsFound, resolve_and_add-kept}
use project_arachne.PageParser.Links.{
  Holds, extract_links_from_js-IsFound, parse_html-kept, put_seen-All,
}

module _ (net : NetUrl) (p : Parsers) (Q : List Text → Type 0)
    (kept : (url : Text) (seen : List Text)
      → IsFound net url
      → Q seen
      → Q (put_seen url seen)) where
  resolve_all-kept :
      (base : Option Url) (matches seen : List Text)
      → Q seen
      → Q (resolve_all net base matches seen)
  unfolding resolve_all
  resolve_all-kept base [] seen q = q
  resolve_all-kept base (m ∷ matches) seen q =
      resolve_all-kept base matches _ (resolve_and_add-kept net Q kept base m seen q)

  add_trimmed-kept :
      (base : Option Url) (s : Text) (matches seen : List Text)
      → Q seen
      → Q (add_trimmed net base s matches seen)
  unfolding add_trimmed
  add_trimmed-kept base s [] seen q = elim (Bool-cases (looks_like_relative_path s)) [
    | inl e ↦ rw (e, add_trimmed) (resolve_and_add-kept net Q kept base s seen q)
    | inr e ↦ rw (e, add_trimmed) q
  ]
  add_trimmed-kept base s (m ∷ matches) seen q = resolve_all-kept base (m ∷ matches) seen q

  add_string-kept :
      (base : Option Url) (s : Text) (seen : List Text) → Q seen → Q (add_string net p base s seen)
  unfolding add_string
  add_string-kept base s seen q = elim (Bool-cases (is_empty (trim_space s))) [
    | inl e ↦ rw (e, add_string) q
    | inr e ↦
        rw (e, add_string)
          (add_trimmed-kept base (trim_space s) (p.find_urls (trim_space s)) seen q)
  ]

  mutual
    unfolding walk_json walk_members walk_values

    pub walk_json-kept :
        (base : Option Url) (j : Json) (seen : List Text) → Q seen → Q (walk_json net p base j seen)
    walk_json-kept base (object members) seen q = walk_members-kept base members seen q
    walk_json-kept base (array values) seen q = walk_values-kept base values seen q
    walk_json-kept base (string s) seen q = add_string-kept base s seen q
    walk_json-kept base scalar seen q = q

    walk_members-kept :
        (base : Option Url) (ms : Members) (seen : List Text)
        → Q seen
        → Q (walk_members net p base ms seen)
    walk_members-kept base no_member seen q = q
    walk_members-kept base (member key v ms) seen q =
        walk_members-kept base ms _ (walk_json-kept base v seen q)

    walk_values-kept :
        (base : Option Url) (vs : Values) (seen : List Text)
        → Q seen
        → Q (walk_values net p base vs seen)
    walk_values-kept base no_value seen q = q
    walk_values-kept base (value v vs) seen q =
        walk_values-kept base vs _ (walk_json-kept base v seen q)

  extract_links_from_json-kept :
      (base_url body : Text)
      → Q []
      → Q (links_or_none (extract_links_from_json net p base_url body))
  unfolding extract_links_from_json links_or_none
  extract_links_from_json-kept base_url body q = elim (Option-cases (p.parse_json body)) [
    | inl e ↦ rw (e, extract_links_from_json) q
    | inr (root, e) ↦
        rw (e, extract_links_from_json) (walk_json-kept (base_of net base_url) root [] q)
  ]

found-injective : (xs ys : List Text) → found xs ≡ found ys → xs ≡ ys
found-injective xs ys h = ground arith

module _ (net : NetUrl) (p : Parsers) where
  -- The property holds of the links found.
  abbrev FoundHolds : (List Text → Type 0) → Extracted → Type 0
  FoundHolds Q r = (links : List Text) → r ≡ found links → Q links

  keeps_found :
      (url : Text) (seen : List Text)
      → IsFound net url
      → All (IsFound net) seen
      → All (IsFound net) (put_seen url seen)
  keeps_found url seen is all = put_seen-All (IsFound net) url seen is all

  page-IsFound :
      (base_url body : Text) (r : Option (List Text))
      → Holds net p (All (IsFound net)) keeps_found r
      → FoundHolds (All (IsFound net)) (elim r [
        | none ↦ unfinished
        | some links ↦ found (links ++ links_or_none (extract_links_from_json net p base_url body))
      ])
  page-IsFound base_url body none h = λ links e. absurd (ground arith)
  page-IsFound base_url body (some xs) h = λ links e.
      subst (All (IsFound net)) (found-injective _ links e) (
        All-append (IsFound net) xs _ (h xs refl)
          (extract_links_from_json-kept net p (All (IsFound net)) keeps_found base_url body tt))

  script-IsFound :
      (fuel : ℕ) (body : Text) (r : Option Text)
      → FoundHolds
          (All (IsFound net))
          (elim r [ none ↦ refused | some base ↦ extract_links_from_js fuel net p base body ])
  script-IsFound fuel body none = λ links e. absurd (ground arith)
  script-IsFound fuel body (some base) = extract_links_from_js-IsFound fuel net p base body

  extract-IsFound :
      (fuel : ℕ) (base_url body : Text)
      → FoundHolds (All (IsFound net)) (extract fuel net p base_url body)
  unfolding extract
  extract-IsFound fuel base_url body =
      elim (Bool-cases (has_suffix (codes ".js") (trim_slash base_url))) [
        | inl e ↦ rw (e, extract) (script-IsFound fuel body (get_base_url net base_url))
        | inr e ↦
            rw (e, extract)
              (page-IsFound base_url body (parse_html fuel net p body base_url)
                (parse_html-kept net p (All (IsFound net)) keeps_found fuel body base_url tt))
      ]

-- The list holds no link twice, and none of the others.
abbrev pub Distinct : List Text → List Text → Type 0
Distinct seen [] = Unit
Distinct seen (u ∷ urls) = (is_seen u seen ≡ false) × Distinct (u ∷ seen) urls

dedupe_from-All :
    (P : Text → Type 0) (seen links : List Text) → All P links → All P (dedupe_from seen links)
unfolding dedupe_from
dedupe_from-All P seen [] h = tt
dedupe_from-All P seen (u ∷ links) (is, h) =
    ground (arith, dedupe_from-All P seen links h, dedupe_from-All P (u ∷ seen) links h)

dedupe_from-Distinct : (seen links : List Text) → Distinct seen (dedupe_from seen links)
unfolding dedupe_from
dedupe_from-Distinct seen [] = tt
dedupe_from-Distinct seen (u ∷ links) = elim (Bool-cases (is_empty u || is_seen u seen)) [
  | inl e ↦ rw (e, dedupe_from) (dedupe_from-Distinct seen links)
  | inr e ↦ rw (e, dedupe_from) (ground arith, dedupe_from-Distinct (u ∷ seen) links)
]

deduped-found :
    (r : Extracted) (links : List Text)
    → deduped r ≡ found links
    → (xs : List Text) × (r ≡ found xs) × (dedupe xs ≡ links)
unfolding deduped
deduped-found unfinished links h = absurd (ground arith)
deduped-found refused links h = absurd (ground arith)
deduped-found (found xs) links h = (xs, refl, found-injective (dedupe xs) links h)

parse-IsFound :
    (fuel : ℕ) (net : NetUrl) (p : Parsers) (base_url body : Text) (links : List Text)
    → parse fuel net p base_url body ≡ found links
    → All (IsFound net) links × Distinct [] links
unfolding parse dedupe
parse-IsFound fuel net p base_url body links = elim (Bool-cases (is_empty body)) [
  | inl e ↦ rw (e, parse) (λ h. absurd (ground arith))
  | inr e ↦
      rw (e, parse)
        (λ h.
          let (xs, made, same) = deduped-found (extract fuel net p base_url body) links h in
          subst (λ ys. All (IsFound net) ys × Distinct [] ys) same
            (
              dedupe_from-All (IsFound net) [] xs
                  (extract-IsFound net p fuel base_url body xs made),
              dedupe_from-Distinct [] xs,
            ))
]

-- The text is the print of a canonical URL.
abbrev pub IsLink : NetUrl → Text → Type 0
IsLink net t = (v : Url) × (t ≡ net.to_string v) × IsCanonical net v

Extracted-cases :
    (r : Extracted) → r ≢ unfinished → (r ≡ refused) ⊎ ((links : List Text) × (r ≡ found links))
Extracted-cases unfinished ends = absurd (ends refl)
Extracted-cases refused ends = inl refl
Extracted-cases (found links) ends = inr (links, refl)

page-kept :
    (r : Option (List Text)) (others : List Text)
    → deduped (elim r [ none ↦ unfinished | some links ↦ found (links ++ others) ]) ≢ refused
unfolding deduped
page-kept none others h = absurd (ground arith)
page-kept (some links) others h = absurd (ground arith)

-- Only an empty body and a script are refused.
parse-refused :
    (fuel : ℕ) (net : NetUrl) (p : Parsers) (base_url body : Text)
    → parse fuel net p base_url body ≡ refused
    → (is_empty body ≡ true) ⊎ (has_suffix (codes ".js") (trim_slash base_url) ≡ true)
unfolding parse extract
parse-refused fuel net p base_url body = elim (Bool-cases (is_empty body)) [
  | inl e ↦ λ h. inl e
  | inr e ↦ elim (Bool-cases (has_suffix (codes ".js") (trim_slash base_url))) [
    | inl js ↦ λ h. inr js
    | inr page ↦
        rw (e, parse)
          (rw (page, extract)
            (λ h. absurd (
              page-kept (parse_html fuel net p body base_url)
                (links_or_none (extract_links_from_json net p base_url body)) h)))
  ]
]

-- If the scripts that are read for a body are short, the parser returns links, unless the body is empty
-- or its URL is that of a script and it refuses; and if net/url and unicode do as they document, each
-- link is the print of a canonical URL, and none is returned twice.
pub parse-IsLink :
    (n : ℕ) (net : NetUrl) (laws : NetLaws net) (p : Parsers) (base_url body : Text)
    → IsShortBody n net p base_url body
    → ((parse n net p base_url body ≡ refused)
        × ((is_empty body ≡ true) ⊎ (has_suffix (codes ".js") (trim_slash base_url) ≡ true)))
      ⊎ ((links : List Text) × (parse n net p base_url body ≡ found links)
          × All (IsLink net) links
          × Distinct [] links)
parse-IsLink n net laws p base_url body short =
    elim (Extracted-cases (parse n net p base_url body)
      (parse-finishes n net p base_url body short)) [
        | inl e ↦ inl (e, parse-refused n net p base_url body e)
        | inr (links, e) ↦
            let (all, distinct) = parse-IsFound n net p base_url body links e in
            inr (
              links,
              e,
              All-mono (IsFound net) (IsLink net) links
                  (λ t (raw, base, made). canonical-IsCanonical net laws raw base t made) all,
              distinct,
            )
      ]

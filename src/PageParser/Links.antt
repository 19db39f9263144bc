-- ===== src/PageParser/Links.antt =====
-- internal/pageparser: the links that HTML, JSON and any body have, each a canonical URL and each once,
-- and the links that are never missed.
use project_arachne.Prelude.{
  some-injective, ℕ, ◌≡◌, refl, inl, inr, subst, List, [], ◌∷◌, Option, none, some, arith, All, In,
  Bool-cases, Option-cases, Text, is_seen, list_eq, nat_eq,
}
use project_arachne.Strings.{is_empty, trim_space, split, fields}
use project_arachne.Urlnorm.{Url, NetUrl}
use project_arachne.PageParser.Urls.{put_seen, trim_trailing_punctuation}
use project_arachne.PageParser.Trees.{
  Node, text, comment, element, other, Nodes, last, child, Parsers, scan_text,
}
use project_arachne.PageParser.Pages.{
  base_of, text_of, Extracted, unfinished, refused, found, as_extracted, attrs_with_urls,
  extract_links_from_js, put_all, put_extracted, is_inline_script, text_children, add_script,
  first_field, add_candidates, extract_from_srcset, is_srcset, add_attr, add_attrs, add_element,
  extract_links_from_node, extract_from_children, add_matches, regex_fallback, parse_html,
}
use project_arachne.PageParser.Kept.{IsFound, add_normalized-kept, script_links-kept}

-- A link that is put among others.
pub put_seen-All :
    (P : Text → Type 0) (url : Text) (seen : List Text)
    → P url
    → All P seen
    → All P (put_seen url seen)
unfolding put_seen
put_seen-All P url seen p h = ground arith

pub put_seen-In : (u url : Text) (seen : List Text) → In u seen → In u (put_seen url seen)
unfolding put_seen
put_seen-In u url seen h = ground arith

as_extracted-found :
    (r : Option (List Text)) (links : List Text) → as_extracted r ≡ found links → r ≡ some links
unfolding as_extracted
as_extracted-found none links h = absurd (ground arith)
as_extracted-found (some xs) links h = ground arith

-- The links of a script are canonical.
pub extract_links_from_js-IsFound :
    (fuel : ℕ) (net : NetUrl) (p : Parsers) (base_url src : Text) (links : List Text)
    → extract_links_from_js fuel net p base_url src ≡ found links
    → All (IsFound net) links
unfolding extract_links_from_js
extract_links_from_js-IsFound fuel net p base_url src links = elim (Option-cases (p.parse_js src)) [
  | inl e ↦ rw (e, extract_links_from_js) (λ h. absurd (ground arith))
  | inr (script, e) ↦
      rw (e, extract_links_from_js)
        (λ h.
          script_links-kept net (All (IsFound net))
            (λ url seen is all. put_seen-All (IsFound net) url seen is all) fuel
            (base_of net base_url) script (p.find_urls src) links tt (as_extracted-found _ links h))
]

module _ (net : NetUrl) (p : Parsers) (Q : List Text → Type 0)
    (kept : (url : Text) (seen : List Text)
      → IsFound net url
      → Q seen
      → Q (put_seen url seen)) where
  -- The property holds of the links, if there are any.
  abbrev pub Holds : Option (List Text) → Type 0
  Holds r = (links : List Text) → r ≡ some links → Q links

  put_all-kept : (urls seen : List Text) → All (IsFound net) urls → Q seen → Q (put_all urls seen)
  unfolding put_all
  put_all-kept [] seen h q = q
  put_all-kept (u ∷ urls) seen (is, h) q = put_all-kept urls (put_seen u seen) h (kept u seen is q)

  put_extracted-kept :
      (r : Extracted) (seen : List Text)
      → ((links : List Text) → r ≡ found links → All (IsFound net) links)
      → Q seen
      → Holds (put_extracted r seen)
  unfolding put_extracted
  put_extracted-kept unfinished seen h q = λ links e. absurd (ground arith)
  put_extracted-kept refused seen h q = λ links e. subst Q (some-injective e) q
  put_extracted-kept (found urls) seen h q =
      λ links e. subst Q (some-injective e) (put_all-kept urls seen (h urls refl) q)

  add_script-kept :
      (fuel : ℕ) (base : Option Url) (js : Text) (seen : List Text)
      → Q seen
      → Holds (add_script fuel net p base js seen)
  unfolding add_script
  add_script-kept fuel base js seen q = elim (Bool-cases (is_empty js)) [
    | inl e ↦ rw (e, add_script) (λ links h. subst Q (some-injective h) q)
    | inr e ↦
        rw (e, add_script)
          (put_extracted-kept (extract_links_from_js fuel net p (text_of base net) js) seen
            (extract_links_from_js-IsFound fuel net p (text_of base net) js) q)
  ]

  add_candidates-kept :
      (base : Option Url) (parts seen : List Text) → Q seen → Q (add_candidates net base parts seen)
  unfolding add_candidates
  add_candidates-kept base [] seen q = q
  add_candidates-kept base (part ∷ parts) seen q =
      add_candidates-kept base parts _ (elim (Bool-cases (is_empty (trim_space part))) [
        | inl e ↦ rw e q
        | inr e ↦
            rw e
              (add_normalized-kept net Q kept base (first_field (fields (trim_space part))) seen q)
      ])

  add_attr-kept :
      (base : Option Url) (a : Text × Text) (seen : List Text)
      → Q seen
      → Q (add_attr net base a seen)
  unfolding add_attr extract_from_srcset
  add_attr-kept base (key, val) seen q = elim (Bool-cases (is_seen key attrs_with_urls)) [
    | inl known ↦
        rw (known, add_attr)
          (elim (Bool-cases (is_srcset key)) [
            | inl e ↦ rw e (add_candidates-kept base (split b',' val) seen q)
            | inr e ↦ rw e (add_normalized-kept net Q kept base val seen q)
          ])
    | inr e ↦ rw (e, add_attr) q
  ]

  pub add_attrs-kept :
      (base : Option Url) (attrs : List (Text × Text)) (seen : List Text)
      → Q seen
      → Q (add_attrs net base attrs seen)
  unfolding add_attrs
  add_attrs-kept base [] seen q = q
  add_attrs-kept base (a ∷ attrs) seen q =
      add_attrs-kept base attrs (add_attr net base a seen) (add_attr-kept base a seen q)

  element_links-kept :
      (base : Option Url) (attrs : List (Text × Text)) (r : Option (List Text))
      → Holds r
      → Holds
          (elim r [ none ↦ none | some with_script ↦ some (add_attrs net base attrs with_script) ])
  element_links-kept base attrs none h = λ links e. absurd (ground arith)
  element_links-kept base attrs (some seen) h =
      λ links e. subst Q (some-injective e) (add_attrs-kept base attrs seen (h seen refl))

  add_element-kept :
      (fuel : ℕ) (base : Option Url) (name : Text) (attrs : List (Text × Text)) (children : Nodes)
      (seen : List Text)
      → Q seen
      → Holds (add_element fuel net p base name attrs children seen)
  unfolding add_element
  add_element-kept fuel base name attrs children seen q =
      element_links-kept base attrs _ (elim (Bool-cases (is_inline_script net p name attrs)) [
        | inl e ↦ rw e (add_script-kept fuel base (trim_space (text_children children)) seen q)
        | inr e ↦ rw e (λ links h. subst Q (some-injective h) q)
      ])

  mutual
    unfolding extract_links_from_node extract_from_children

    pub extract_links_from_node-kept :
        (fuel : ℕ) (base : Option Url) (node : Node) (r : Option (List Text))
        → Holds r
        → Holds (extract_links_from_node fuel net p base node r)
    extract_links_from_node-kept fuel base (text s) none h = h
    extract_links_from_node-kept fuel base (text s) (some seen) h = h
    extract_links_from_node-kept fuel base (comment s) none h = h
    extract_links_from_node-kept fuel base (comment s) (some seen) h = h
    extract_links_from_node-kept fuel base (element name attrs children inner) none h = h
    extract_links_from_node-kept fuel base (element name attrs children inner) (some seen) h =
        extract_from_children-kept fuel base children
          (add_element fuel net p base name attrs children seen)
          (add_element-kept fuel base name attrs children seen (h seen refl))
    extract_links_from_node-kept fuel base (other children) none h = h
    extract_links_from_node-kept fuel base (other children) (some seen) h =
        extract_from_children-kept fuel base children (some seen) h

    pub extract_from_children-kept :
        (fuel : ℕ) (base : Option Url) (nodes : Nodes) (r : Option (List Text))
        → Holds r
        → Holds (extract_from_children fuel net p base nodes r)
    extract_from_children-kept fuel base last r h = h
    extract_from_children-kept fuel base (child node nodes) r h =
        extract_from_children-kept fuel base nodes _
          (extract_links_from_node-kept fuel base node r h)

  add_matches-kept :
      (base : Option Url) (matches seen : List Text)
      → Q seen
      → Q (add_matches net base matches seen)
  unfolding add_matches
  add_matches-kept base [] seen q = q
  add_matches-kept base (m ∷ matches) seen q =
      add_matches-kept base matches _
        (elim (Bool-cases (is_empty (trim_trailing_punctuation (trim_space m)))) [
          | inl e ↦ rw e q
          | inr e ↦ rw e (
              add_normalized-kept net Q kept base (trim_trailing_punctuation (trim_space m)) seen q)
        ])

  pub regex_fallback-kept :
      (base : Option Url) (body : Text) (r : Option (List Text))
      → Holds r
      → Holds (regex_fallback net p base body r)
  unfolding regex_fallback
  regex_fallback-kept base body none h = h
  regex_fallback-kept base body (some seen) h = λ links e.
      subst Q (some-injective e) (add_matches-kept base (p.find_urls body) seen (h seen refl))

  pub parse_html-kept :
      (fuel : ℕ) (body raw_base : Text) → Q [] → Holds (parse_html fuel net p body raw_base)
  unfolding parse_html
  parse_html-kept fuel body raw_base q = elim (Option-cases (p.parse_html body)) [
    | inl e ↦
        rw (e, parse_html)
          (regex_fallback-kept (base_of net raw_base) body (some [])
            (λ links h. subst Q (some-injective h) q))
    | inr (doc, e) ↦
        rw (e, parse_html)
          (regex_fallback-kept (base_of net raw_base) (scan_text doc) _ (
            extract_links_from_node-kept fuel (base_of net raw_base) doc (some [])
              (λ links h. subst Q (some-injective h) q)))
  ]

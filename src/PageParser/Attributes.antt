-- ===== src/PageParser/Attributes.antt =====
-- internal/pageparser/page_parser_basic_html.go: no link in an attribute is missed.
use project_arachne.Prelude.{
  ℕ, ◌≡◌, refl, sym, inl, inr, subst, ◌⊎◌, List, [], ◌∷◌, true, false, Option, none, some,
  some-injective, arith, ==_iff, In, Bool-cases, Option-cases, ◌∙◌, Text, is_seen, list_eq, nat_eq,
}
use project_arachne.Strings.{is_empty}
use project_arachne.Urlnorm.{Url, NetUrl, canonical}
use project_arachne.PageParser.Urls.{normalize_url, put_seen, resolve_and_add, add_normalized}
use project_arachne.PageParser.Trees.{
  Node, text, comment, element, other, Nodes, last, child, Parsers, scan_text,
}
use project_arachne.PageParser.Pages.{
  base_of, attrs_with_urls, is_srcset, add_attr, add_attrs, add_element, extract_links_from_node,
  extract_from_children, parse_html,
}
use project_arachne.PageParser.Finishing.{AllShort, parse_html-finishes}
use project_arachne.PageParser.Links.{
  Holds, put_seen-In, add_attrs-kept, extract_links_from_node-kept, extract_from_children-kept,
  regex_fallback-kept,
}

-- An element of the tree has the attribute.
unfoldable mutual
  pub HasAttr : Text × Text → Node → Type 0
  HasAttr a (text s) = ⊥
  HasAttr a (comment s) = ⊥
  HasAttr a (element name attrs children inner) = In a attrs ⊎ SomeHasAttr a children
  HasAttr a (other children) = SomeHasAttr a children

  pub SomeHasAttr : Text × Text → Nodes → Type 0
  SomeHasAttr a last = ⊥
  SomeHasAttr a (child node nodes) = HasAttr a node ⊎ SomeHasAttr a nodes

is_seen-In : (u : Text) (seen : List Text) → is_seen u seen ≡ true → In u seen
is_seen-In u [] h = absurd (ground arith)
is_seen-In u (v ∷ seen) h = ground (arith, ==_iff v u, is_seen-In u seen)

put_seen-here : (u : Text) (seen : List Text) → In u (put_seen u seen)
unfolding put_seen
put_seen-here u seen = elim (Bool-cases (is_seen u seen)) [
  | inl e ↦ rw e (is_seen-In u seen e)
  | inr e ↦ rw e (inl refl)
]

module _ (net : NetUrl) (p : Parsers) (base : Option Url) (u key val : Text)
    (known : is_seen key attrs_with_urls ≡ true) (single : is_srcset key ≡ false)
    (some_ : is_empty (normalize_url net.lower val) ≡ false)
    (made : canonical net (normalize_url net.lower val) base ≡ some u) where
  abbrev Kept : Option (List Text) → Type 0
  Kept = Holds net p (In u) (λ url seen is h. put_seen-In u url seen h)

  add_attr-finds : (seen : List Text) → In u (add_attr net base (key, val) seen)
  unfolding add_attr add_normalized resolve_and_add
  add_attr-finds seen =
      rw (known, add_attr)
        (rw single (rw (some_, add_normalized) (rw (made, resolve_and_add) (put_seen-here u seen))))

  add_attrs-finds :
      (attrs : List (Text × Text)) (seen : List Text)
      → In (key, val) attrs
      → In u (add_attrs net base attrs seen)
  unfolding add_attrs
  add_attrs-finds [] seen h = absurd h
  add_attrs-finds (a ∷ attrs) seen (inl same) =
      add_attrs-kept net p (In u) (λ url seen is h. put_seen-In u url seen h) base attrs _
        (subst (λ b. In u (add_attr net base b seen)) (sym same) (add_attr-finds seen))
  add_attrs-finds (a ∷ attrs) seen (inr h) = add_attrs-finds attrs (add_attr net base a seen) h

  element_finds :
      (attrs : List (Text × Text)) (r : Option (List Text))
      → In (key, val) attrs
      → Kept
          (elim r [ none ↦ none | some with_script ↦ some (add_attrs net base attrs with_script) ])
  element_finds attrs none h = λ links e. absurd (ground arith)
  element_finds attrs (some seen) h =
      λ links e. subst (In u) (some-injective e) (add_attrs-finds attrs seen h)

  -- The walk finds nothing that would be unfinished.
  walk_none : (fuel : ℕ) (node : Node) → Kept (extract_links_from_node fuel net p base node none)
  walk_none fuel node =
      extract_links_from_node-kept net p (In u) (λ url seen is h. put_seen-In u url seen h) fuel
        base node none (λ links e. absurd (ground arith))

  mutual
    unfolding extract_links_from_node extract_from_children HasAttr SomeHasAttr add_element

    extract_links_from_node-finds :
        (fuel : ℕ) (node : Node) (r : Option (List Text))
        → HasAttr (key, val) node
        → Kept (extract_links_from_node fuel net p base node r)
    extract_links_from_node-finds fuel (text s) r h = absurd h
    extract_links_from_node-finds fuel (comment s) r h = absurd h
    extract_links_from_node-finds fuel (element name attrs children inner) none h =
        walk_none fuel (element name attrs children inner)
    extract_links_from_node-finds fuel (element name attrs children inner) (some seen) (inl h) =
        extract_from_children-kept net p (In u) (λ url seen is h. put_seen-In u url seen h) fuel
          base children _ (element_finds attrs _ h)
    extract_links_from_node-finds fuel (element name attrs children inner) (some seen) (inr h) =
        extract_from_children-finds fuel children _ h
    extract_links_from_node-finds fuel (other children) none h = walk_none fuel (other children)
    extract_links_from_node-finds fuel (other children) (some seen) h =
        extract_from_children-finds fuel children (some seen) h

    extract_from_children-finds :
        (fuel : ℕ) (nodes : Nodes) (r : Option (List Text))
        → SomeHasAttr (key, val) nodes
        → Kept (extract_from_children fuel net p base nodes r)
    extract_from_children-finds fuel last r h = absurd h
    extract_from_children-finds fuel (child node nodes) r (inl h) =
        extract_from_children-kept net p (In u) (λ url seen is h. put_seen-In u url seen h) fuel
          base nodes _ (extract_links_from_node-finds fuel node r h)
    extract_from_children-finds fuel (child node nodes) r (inr h) =
        extract_from_children-finds fuel nodes _ h

parse_html-found :
    (fuel : ℕ) (net : NetUrl) (p : Parsers) (body raw_base u key val : Text) (doc : Node)
    (links : List Text)
    → p.parse_html body ≡ some doc
    → HasAttr (key, val) doc
    → is_seen key attrs_with_urls ≡ true
    → is_srcset key ≡ false
    → is_empty (normalize_url net.lower val) ≡ false
    → canonical net (normalize_url net.lower val) (base_of net raw_base) ≡ some u
    → parse_html fuel net p body raw_base ≡ some links
    → In u links
unfolding parse_html
parse_html-found fuel net p body raw_base u key val doc links parsed has known single some_ made =
    rw (parsed, parse_html)
      (regex_fallback-kept net p (In u) (λ url seen is h. put_seen-In u url seen h)
        (base_of net raw_base) (scan_text doc) _
        (extract_links_from_node-finds net p (base_of net raw_base) u key val known single some_
          made fuel doc (some []) has)
        links)

-- A link in an attribute of an element is not missed: if the document parses and its inline scripts are
-- short, and an element anywhere in it has a URL attribute other than a `srcset` whose cleaned value has
-- a canonical form, then the parser returns links, and this form is among them.
pub parse_html-finds :
    (n : ℕ) (net : NetUrl) (p : Parsers) (body raw_base u key val : Text) (doc : Node)
    → p.parse_html body ≡ some doc
    → AllShort n net p doc
    → HasAttr (key, val) doc
    → is_seen key attrs_with_urls ≡ true
    → is_srcset key ≡ false
    → is_empty (normalize_url net.lower val) ≡ false
    → canonical net (normalize_url net.lower val) (base_of net raw_base) ≡ some u
    → (links : List Text) × (parse_html n net p body raw_base ≡ some links) × In u links
parse_html-finds n net p body raw_base u key val doc parsed short has known single some_ made =
    elim (Option-cases (parse_html n net p body raw_base)) [
      | inl never ↦ absurd (
          parse_html-finishes n net p body raw_base
            (λ doc' e. subst (AllShort n net p) (some-injective (sym parsed ∙ e)) short) never)
      | inr (links, e) ↦ (
        links,
        e,
        parse_html-found n net p body raw_base u key val doc links parsed has known single some_
            made e,
      )
    ]

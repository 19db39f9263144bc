-- ===== src/PageParser/Finishing.antt =====
-- internal/pageparser: the parser finishes for a body whose scripts are short.
use project_arachne.Prelude.{
  ℕ, ◌≡◌, ◌≢◌, refl, inl, inr, true, List, [], Option, none, some, arith, Bool-cases, Option-cases,
  Text, codes,
}
use project_arachne.Strings.{is_empty, trim_space, has_suffix}
use project_arachne.Urlnorm.{Url, NetUrl}
use project_arachne.PageParser.Script.{Script, rounds, first_objects, no_constants}
use project_arachne.PageParser.Ending.{IsShort, rounds-short}
use project_arachne.PageParser.Calls.{script_links}
use project_arachne.PageParser.Trees.{
  Node, text, comment, element, other, Nodes, last, child, Parsers, scan_text,
}
use project_arachne.PageParser.Pages.{
  base_of, text_of, Extracted, unfinished, refused, found, as_extracted, extract_links_from_js,
  put_extracted, is_inline_script, text_children, add_script, add_element, extract_links_from_node,
  extract_from_children, regex_fallback, parse_html,
}
use project_arachne.PageParser.Bodies.{extract, get_base_url, trim_slash, deduped, parse}

-- The source is no script, or a short one.
abbrev pub IsShortSource : ℕ → Parsers → Text → Type 0
IsShortSource n p src = (script : Script) → p.parse_js src ≡ some script → IsShort n script

-- The inline scripts of a tree are short.
unfoldable mutual
  pub AllShort : ℕ → NetUrl → Parsers → Node → Type 0
  AllShort n net p (text s) = Unit {0}
  AllShort n net p (comment s) = Unit {0}
  AllShort n net p (element name attrs children inner) =
      (is_inline_script net p name attrs ≡ true
        → IsShortSource n p (trim_space (text_children children)))
      × ChildrenShort n net p children
  AllShort n net p (other children) = ChildrenShort n net p children

  pub ChildrenShort : ℕ → NetUrl → Parsers → Nodes → Type 0
  ChildrenShort n net p last = Unit {0}
  ChildrenShort n net p (child node nodes) = AllShort n net p node × ChildrenShort n net p nodes

-- The scripts that are read for a body: the body itself, where the URL is that of a script, and the
-- inline scripts of its tree.
pub record IsShortBody (n : ℕ) (net : NetUrl) (p : Parsers) (base_url body : Text) : Type 0 where
  pub whole : has_suffix (codes ".js") (trim_slash base_url) ≡ true → IsShortSource n p body
  pub inline : (doc : Node) → p.parse_html body ≡ some doc → AllShort n net p doc

module _ (n : ℕ) (net : NetUrl) (p : Parsers) where
  extract_links_from_js-finishes :
      (base_url src : Text)
      → IsShortSource n p src
      → extract_links_from_js n net p base_url src ≢ unfinished
  unfolding extract_links_from_js script_links as_extracted
  extract_links_from_js-finishes base_url src short = elim (Option-cases (p.parse_js src)) [
    | inl e ↦ rw (e, extract_links_from_js) (λ h. absurd (ground arith))
    | inr (script, e) ↦
        rw (e, extract_links_from_js)
          (elim (Option-cases (rounds n script (first_objects script.obj_literals no_constants))) [
            | inl never ↦ absurd (rounds-short n script (short script e) _ never)
            | inr (c, ends) ↦ rw (ends, script_links) (λ h. absurd (ground arith))
          ])
  ]

  put_extracted-finishes :
      (r : Extracted) (seen : List Text) → r ≢ unfinished → put_extracted r seen ≢ none
  unfolding put_extracted
  put_extracted-finishes unfinished seen ends = absurd (ends refl)
  put_extracted-finishes refused seen ends = λ h. absurd (ground arith)
  put_extracted-finishes (found links) seen ends = λ h. absurd (ground arith)

  add_script-finishes :
      (base : Option Url) (js : Text) (seen : List Text)
      → IsShortSource n p js
      → add_script n net p base js seen ≢ none
  unfolding add_script
  add_script-finishes base js seen short = elim (Bool-cases (is_empty js)) [
    | inl e ↦ rw (e, add_script) (λ h. absurd (ground arith))
    | inr e ↦
        rw (e, add_script)
          (put_extracted-finishes (extract_links_from_js n net p (text_of base net) js) seen
            (extract_links_from_js-finishes (text_of base net) js short))
  ]

  add_element-finishes :
      (base : Option Url) (name : Text) (attrs : List (Text × Text)) (children : Nodes)
      (seen : List Text)
      → (is_inline_script net p name attrs ≡ true
          → IsShortSource n p (trim_space (text_children children)))
      → add_element n net p base name attrs children seen ≢ none
  unfolding add_element
  add_element-finishes base name attrs children seen short =
      elim (Bool-cases (is_inline_script net p name attrs)) [
        | inr plain ↦ rw (plain, add_element) (λ h. absurd (ground arith))
        | inl script ↦
            let js = trim_space (text_children children) in
            elim (Option-cases (add_script n net p base js seen)) [
              | inl e ↦ absurd (add_script-finishes base js seen (short script) e)
              | inr (links, e) ↦
                  rw (script, add_element) (rw (e, add_element) (λ h. absurd (ground arith)))
            ]
      ]

  mutual
    unfolding extract_links_from_node extract_from_children AllShort ChildrenShort

    extract_links_from_node-finishes :
        (base : Option Url) (node : Node) (r : Option (List Text))
        → AllShort n net p node
        → r ≢ none
        → extract_links_from_node n net p base node r ≢ none
    extract_links_from_node-finishes base node none short h = absurd (h refl)
    extract_links_from_node-finishes base (text s) (some seen) short h = h
    extract_links_from_node-finishes base (comment s) (some seen) short h = h
    extract_links_from_node-finishes base (element name attrs children inner) (some seen)
          (short, below) h =
        extract_from_children-finishes base children
          (add_element n net p base name attrs children seen) below
          (add_element-finishes base name attrs children seen short)
    extract_links_from_node-finishes base (other children) (some seen) short h =
        extract_from_children-finishes base children (some seen) short h

    extract_from_children-finishes :
        (base : Option Url) (nodes : Nodes) (r : Option (List Text))
        → ChildrenShort n net p nodes
        → r ≢ none
        → extract_from_children n net p base nodes r ≢ none
    extract_from_children-finishes base last r short h = h
    extract_from_children-finishes base (child node nodes) r (short, others) h =
        extract_from_children-finishes base nodes (extract_links_from_node n net p base node r)
          others (extract_links_from_node-finishes base node r short h)

  regex_fallback-finishes :
      (base : Option Url) (body : Text) (r : Option (List Text))
      → r ≢ none
      → regex_fallback net p base body r ≢ none
  unfolding regex_fallback
  regex_fallback-finishes base body none h = absurd (h refl)
  regex_fallback-finishes base body (some seen) h = λ e. absurd (ground arith)

  pub parse_html-finishes :
      (body raw_base : Text)
      → ((doc : Node) → p.parse_html body ≡ some doc → AllShort n net p doc)
      → parse_html n net p body raw_base ≢ none
  unfolding parse_html
  parse_html-finishes body raw_base short = elim (Option-cases (p.parse_html body)) [
    | inl e ↦
        rw (e, parse_html)
          (regex_fallback-finishes (base_of net raw_base) body (some [])
            (λ h. absurd (ground arith)))
    | inr (doc, e) ↦
        rw (e, parse_html)
          (regex_fallback-finishes (base_of net raw_base) (scan_text doc) _ (
            extract_links_from_node-finishes (base_of net raw_base) doc (some []) (short doc e)
              (λ h. absurd (ground arith))))
  ]

  script-finishes :
      (body : Text) (r : Option Text)
      → IsShortSource n p body
      → (elim r [ none ↦ refused | some base ↦ extract_links_from_js n net p base body ])
        ≢ unfinished
  script-finishes body none short = λ h. absurd (ground arith)
  script-finishes body (some base) short = extract_links_from_js-finishes base body short

  deduped-finishes : (r : Extracted) → r ≢ unfinished → deduped r ≢ unfinished
  unfolding deduped
  deduped-finishes unfinished h = h
  deduped-finishes refused h = h
  deduped-finishes (found links) h = λ e. absurd (ground arith)

  extract-finishes :
      (base_url body : Text)
      → IsShortBody n net p base_url body
      → extract n net p base_url body ≢ unfinished
  unfolding extract
  extract-finishes base_url body short =
      elim (Bool-cases (has_suffix (codes ".js") (trim_slash base_url))) [
        | inl e ↦ rw (e, extract) (script-finishes body (get_base_url net base_url) (short.whole e))
        | inr e ↦
            rw (e, extract)
              (elim (Option-cases (parse_html n net p body base_url)) [
                | inl never ↦ absurd (parse_html-finishes body base_url short.inline never)
                | inr (links, ends) ↦ rw ends (λ h. absurd (ground arith))
              ])
      ]

  -- The parser finishes for a body if each script that is read for it, be it the body or inline, has
  -- fewer initial values than the fuel, none of them an object literal, and no assignment, or is
  -- refused by the JavaScript parser.
  pub parse-finishes :
      (base_url body : Text)
      → IsShortBody n net p base_url body
      → parse n net p base_url body ≢ unfinished
  unfolding parse
  parse-finishes base_url body short = elim (Bool-cases (is_empty body)) [
    | inl e ↦ rw (e, parse) (λ h. absurd (ground arith))
    | inr e ↦
        rw (e, parse)
          (deduped-finishes (extract n net p base_url body) (extract-finishes base_url body short))
  ]

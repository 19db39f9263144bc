-- ===== src/Parser/Kinds.antt =====
-- internal/parser: which links are pages, that is followed, for any body.
use project_arachne.Prelude.{
  ◌⊎◌, ◌≢◌, ◌≡◌, refl, sym, ap, ◌∙◌, subst, inl, inr, List, [], ◌∷◌, false, Option, none, some,
  if◌then◌else◌, arith, ◌==◌, ==_iff, nat_eq, list_eq, Bool-cases, Text,
}
use project_arachne.Strings.{is_empty}
use project_arachne.Urlnorm.{Url, NetUrl}
use project_arachne.Parser.{
  LinkKind, link_page, link_other, Link, new_accumulator, normalize_url, Engines,
}
use project_arachne.Parser.Whole.{found_links, extract_links}
use project_arachne.Parser.Best.{improved, best, best-page, best-ne-none, Has-page, Has-some}
use project_arachne.Parser.Found.{
  IsHyperlink, IsMentioned, Found-cases, hyperlink-Found, mentioned-Found,
}
use project_arachne.Parser.Links.{better, note, note_all, add_all-note_all}

-- The kind of the link to the URL, if there is one.
unfoldable pub kind_of : Text → List Link → Option LinkKind
kind_of url [] = none
kind_of url (l ∷ links) = let rest = kind_of url links in if l.url == url then some l.kind else rest

unfoldable either : Option LinkKind → Option LinkKind → Option LinkKind
either none k = k
either (some old) k = improved old k

kind_of-note :
    (u url : Text) (kind : LinkKind) (links : List Link)
    → kind_of u (note url kind links)
      ≡ (if url == u then improved kind (kind_of u links) else kind_of u links)
unfolding kind_of note improved
kind_of-note u url kind [] = ground arith
kind_of-note u url kind (l ∷ links) = elim (Bool-cases (l.url == url)) [
  | inl e ↦ ground (arith, ==_iff l.url url, ap (λ t. t == u))
  | inr e ↦ elim (Bool-cases (l.url == u)) [
    | inl e' ↦ ground (arith, ==_iff l.url u, ==_iff url u, ==_iff l.url url)
    | inr e' ↦ ground (arith, kind_of-note u url kind links)
  ]
]

either-improved :
    (kind : LinkKind) (old rest : Option LinkKind)
    → either (improved kind old) rest ≡ either old (improved kind rest)
unfolding either improved better
either-improved link_page none none = refl
either-improved link_page none (some k) = refl
either-improved link_page (some link_page) none = refl
either-improved link_page (some link_other) none = refl
either-improved link_page (some link_page) (some k) = refl
either-improved link_page (some link_other) (some k) = refl
either-improved link_other none none = refl
either-improved link_other none (some k) = refl
either-improved link_other (some link_page) none = refl
either-improved link_other (some link_other) none = refl
either-improved link_other (some link_page) (some k) = refl
either-improved link_other (some link_other) (some k) = refl

either-none : (k : Option LinkKind) → either k none ≡ k
unfolding either improved
either-none none = refl
either-none (some k) = refl

kind_of-note_all :
    (net : NetUrl) (base : Option Url) (url : Text) (items : List (Text × LinkKind))
    (links : List Link)
    → is_empty url ≡ false
    → kind_of url (note_all net base items links)
      ≡ either (kind_of url links) (best net base url items)
unfolding note_all best
kind_of-note_all net base url [] links full = sym (either-none (kind_of url links))
kind_of-note_all net base url ((raw, kind) ∷ items) links full =
    let made = normalize_url net raw base in
    elim (Bool-cases (made == url)) [
      | inl same ↦
          let filled : is_empty made ≡ false =
            subst (λ t. is_empty t ≡ false) (sym ((==_iff made url).0 same)) full in
          rw (filled, same)
            (kind_of-note_all net base url items (note made kind links) full
              ∙ (ap (λ k. either k (best net base url items))
                    (kind_of-note url made kind links
                      ∙ ap (λ b. if b then improved kind (kind_of url links) else kind_of url links)
                          same)
                  ∙ either-improved kind (kind_of url links) (best net base url items)))
      | inr other ↦ elim (Bool-cases (is_empty made)) [
        | inl empty ↦ rw (empty, other) (kind_of-note_all net base url items links full)
        | inr filled ↦
            rw (filled, other)
              (kind_of-note_all net base url items (note made kind links) full
                ∙ ap (λ k. either k (best net base url items))
                    (kind_of-note url made kind links
                      ∙ ap (λ b. if b then improved kind (kind_of url links) else kind_of url links)
                          other))
      ]
    ]

kind_of-best :
    {D : Type 0} (net : NetUrl) (e : Engines D) (body media_type url : Text) (doc : Option D)
    (base : Option Url)
    → is_empty url ≡ false
    → kind_of url (extract_links net e body media_type doc (new_accumulator base)).links
      ≡ best net base url (found_links net e body base media_type doc)
unfolding extract_links either kind_of new_accumulator
kind_of-best net e body media_type url doc base full =
    ap (kind_of url) (add_all-note_all net base (found_links net e body base media_type doc))
    ∙ kind_of-note_all net base url (found_links net e body base media_type doc) [] full

-- The links of a body: the one to a URL is a page, to be followed, exactly if a hyperlink of the document
-- leads to that URL, by its `href` or else its `src`; and there is a link to the URL at all exactly
-- if such a hyperlink leads there, the URL stands in the scanned text, or it is among the requests of
-- the page.
pub extract_links-kind_of :
    {D : Type 0} (net : NetUrl) (e : Engines D) (body media_type url : Text) (doc : Option D)
    (base : Option Url)
    → is_empty url ≡ false
    → let kind =
        kind_of url (extract_links net e body media_type doc (new_accumulator base)).links in
      (kind ≡ some link_page → IsHyperlink net e doc base url)
      × (IsHyperlink net e doc base url → kind ≡ some link_page)
      × (kind ≢ none
          → IsHyperlink net e doc base url ⊎ IsMentioned net e body media_type doc base url)
      × (IsMentioned net e body media_type doc base url → kind ≢ none)
extract_links-kind_of net e body media_type url doc base full =
    let items = found_links net e body base media_type doc in
    rw (kind_of-best net e body media_type url doc base full) (
      λ h.
          elim (Found-cases net e body media_type base url doc link_page
            (best-page net base url full items h)) [
              | inl (page, link) ↦ link
              | inr (other, mentioned) ↦ cc
            ],
      λ link.
          Has-page net base url full items
            (hyperlink-Found net e body media_type base url doc link),
      λ h.
          let (k, has) = best-ne-none net base url full items h in
          elim (Found-cases net e body media_type base url doc k has) [
            | inl (page, link) ↦ inl link
            | inr (other, mentioned) ↦ inr mentioned
          ],
      λ mentioned.
          Has-some net base url full link_other items
            (mentioned-Found net e body media_type base url doc mentioned),
    )

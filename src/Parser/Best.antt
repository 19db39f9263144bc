-- ===== src/Parser/Best.antt =====
-- internal/parser: the best of the kinds with which a URL was found.
use project_arachne.Prelude.{
  In, true, ◌⊎◌, ◌≢◌, Option-cases, ◌≡◌, refl, sym, ap, ◌∙◌, subst, inl, inr, List, [], ◌∷◌, false,
  Option, none, some, if◌then◌else◌, arith, ◌==◌, ==_iff, nat_eq, list_eq, Bool-cases, Text,
}
use project_arachne.Strings.{is_empty}
use project_arachne.Urlnorm.{Url, NetUrl, canonical}
use project_arachne.Parser.{LinkKind, link_page, link_other, normalize_url}
use project_arachne.Parser.Links.{better}

unfoldable pub improved : LinkKind → Option LinkKind → Option LinkKind
improved kind none = some kind
improved kind (some old) = some (better kind old)

-- A page if one of the items with the canonical form is, another link if there is one, and else none.
unfoldable pub best : NetUrl → Option Url → Text → List (Text × LinkKind) → Option LinkKind
best net base url [] = none
best net base url ((raw, kind) ∷ items) =
    let rest = best net base url items in
    if normalize_url net raw base == url then improved kind rest else rest

normalize_url-made :
    (net : NetUrl) (raw url : Text) (base : Option Url)
    → is_empty url ≡ false
    → normalize_url net raw base ≡ url
    → canonical net raw base ≡ some url
unfolding normalize_url is_empty
normalize_url-made net raw url base full h = elim (Option-cases (canonical net raw base)) [
  | inl e ↦
      absurd
        (ground (arith, subst (λ u. is_empty u ≡ false) (sym (rw (e, normalize_url) at h)) full))
  | inr (u, e) ↦ e ∙ ap (λ (t : Text). some t) (rw (e, normalize_url) at h)
]

made-normalize_url :
    (net : NetUrl) (raw url : Text) (base : Option Url)
    → canonical net raw base ≡ some url
    → normalize_url net raw base ≡ url
unfolding normalize_url
made-normalize_url net raw url base h = rw (h, normalize_url) refl

improved-page :
    (k : LinkKind) (rest : Option LinkKind)
    → improved k rest ≡ some link_page
    → (k ≡ link_page) ⊎ (rest ≡ some link_page)
unfolding improved better
improved-page link_page rest h = inl refl
improved-page link_other none h = absurd (ground arith)
improved-page link_other (some old) h = inr h

page-improved : (rest : Option LinkKind) → improved link_page rest ≡ some link_page
unfolding improved better
page-improved none = refl
page-improved (some old) = refl

improved_page : (k : LinkKind) → improved k (some link_page) ≡ some link_page
unfolding improved better
improved_page link_page = refl
improved_page link_other = refl

improved-ne-none : (k : LinkKind) (rest : Option LinkKind) → improved k rest ≢ none
unfolding improved
improved-ne-none k none h = absurd (ground arith)
improved-ne-none k (some old) h = absurd (ground arith)

module _ (net : NetUrl) (base : Option Url) (url : Text) (full : is_empty url ≡ false) where
  -- Some item of the kind has the canonical form.
  abbrev pub Has : LinkKind → List (Text × LinkKind) → Type 0
  Has k items = (raw : Text) × In (raw, k) items × (canonical net raw base ≡ some url)

  pub best-page :
      (items : List (Text × LinkKind))
      → best net base url items ≡ some link_page
      → Has link_page items
  unfolding best
  best-page [] h = absurd (ground arith)
  best-page ((raw, kind) ∷ items) h = elim (Bool-cases (normalize_url net raw base == url)) [
    | inl hit ↦ elim (improved-page kind (best net base url items) (rw (hit, best) at h)) [
      | inl page ↦ (
        raw,
        inl (ap (λ (k : LinkKind). (raw, k)) page),
        normalize_url-made net raw url base full ((==_iff _ url).0 hit),
      )
      | inr later ↦ let (r, i, made) = best-page items later in (r, inr i, made)
    ]
    | inr miss ↦ let (r, i, made) = best-page items (rw (miss, best) at h) in (r, inr i, made)
  ]

  pub best-ne-none :
      (items : List (Text × LinkKind))
      → best net base url items ≢ none
      → (k : LinkKind) × Has k items
  unfolding best
  best-ne-none [] h = absurd (h refl)
  best-ne-none ((raw, kind) ∷ items) h = elim (Bool-cases (normalize_url net raw base == url)) [
    | inl hit ↦
        (kind, (raw, inl refl, normalize_url-made net raw url base full ((==_iff _ url).0 hit)))
    | inr miss ↦
        let (k, (r, i, made)) = best-ne-none items (rw (miss, best) at h) in (k, (r, inr i, made))
  ]

  made_hit :
      (raw : Text) → canonical net raw base ≡ some url → (normalize_url net raw base == url) ≡ true
  made_hit raw made =
      (==_iff (normalize_url net raw base) url).1 (made-normalize_url net raw url base made)

  pub Has-page :
      (items : List (Text × LinkKind))
      → Has link_page items
      → best net base url items ≡ some link_page
  unfolding best
  Has-page [] (raw, i, made) = absurd i
  Has-page ((r, kind) ∷ items) (raw, inl same, made) =
      let hit : (normalize_url net r base == url) ≡ true =
        subst (λ t. (normalize_url net t base == url) ≡ true) (sym (ap (λ i. i.0) same))
          (made_hit raw made) in
      rw (hit, best)
        (subst (λ k. improved k (best net base url items) ≡ some link_page)
          (sym (ap (λ i. i.1) same)) (page-improved (best net base url items)))
  Has-page ((r, kind) ∷ items) (raw, inr i, made) =
      let later = Has-page items (raw, i, made) in
      elim (Bool-cases (normalize_url net r base == url)) [
        | inl hit ↦ rw (hit, best) (rw later (improved_page kind))
        | inr miss ↦ rw (miss, best) later
      ]

  pub Has-some :
      (k : LinkKind) (items : List (Text × LinkKind)) → Has k items → best net base url items ≢ none
  unfolding best
  Has-some k [] (raw, i, made) = absurd i
  Has-some k ((r, kind) ∷ items) (raw, inl same, made) =
      let hit : (normalize_url net r base == url) ≡ true =
        subst (λ t. (normalize_url net t base == url) ≡ true) (sym (ap (λ i. i.0) same))
          (made_hit raw made) in
      rw (hit, best) (improved-ne-none kind (best net base url items))
  Has-some k ((r, kind) ∷ items) (raw, inr i, made) =
      let later = Has-some k items (raw, i, made) in
      elim (Bool-cases (normalize_url net r base == url)) [
        | inl hit ↦ rw (hit, best) (improved-ne-none kind (best net base url items))
        | inr miss ↦ rw (miss, best) later
      ]

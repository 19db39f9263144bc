-- ===== src/Parser/Links.antt =====
-- internal/parser/parser_katana.go: the accumulator of links.
use project_arachne.Prelude.{
  ℕ, zero, suc, ◌≡◌, refl, sym, ap, ◌∙◌, subst, inl, inr, List, [], ◌∷◌, ◌++◌, Option, none, some,
  if◌then◌else◌, arith, ◌==◌, ==_iff, nat_eq, list_eq, lookup, lookup-insert, length, Bool-cases,
  Option-cases, Text,
}
use project_arachne.Strings.{is_empty}
use project_arachne.Urlnorm.{Url, NetUrl}
use project_arachne.Parser.{
  LinkKind, link_page, link_other, Link, Accumulator, new_accumulator, normalize_url, set_page,
  upgrade, add_normalized, add, add_all,
}

unfoldable pub better : LinkKind → LinkKind → LinkKind
better link_page old = link_page
better link_other old = old

-- A link among others, without an index: its kind is changed where it stands, or it comes last.
unfoldable pub note : Text → LinkKind → List Link → List Link
note url kind [] = record { url = url; kind = kind } ∷ []
note url kind (l ∷ links) =
    let rest = note url kind links in
    if l.url == url then record { url = l.url; kind = better kind l.kind } ∷ links else l ∷ rest

unfoldable pub note_all : NetUrl → Option Url → List (Text × LinkKind) → List Link → List Link
note_all net base [] links = links
note_all net base ((raw, kind) ∷ items) links =
    let url = normalize_url net raw base in
    note_all net base items (if is_empty url then links else note url kind links)

unfoldable next : Option ℕ → Option ℕ
next none = none
next (some i) = some (suc i)

-- Where the link to the URL stands.
unfoldable position : Text → List Link → Option ℕ
position url [] = none
position url (l ∷ links) =
    let rest = position url links in if l.url == url then some 0 else next rest

-- The index is right.
abbrev IsIndexed : Accumulator → Type 0
IsIndexed acc = (url : Text) → lookup url acc.index ≡ position url acc.links

note_new :
    (url : Text) (kind : LinkKind) (links : List Link)
    → position url links ≡ none
    → note url kind links ≡ links ++ record { url = url; kind = kind } ∷ []
unfolding note position next
note_new url kind [] h = refl
note_new url kind (l ∷ links) h = elim (Bool-cases (l.url == url)) [
  | inl e ↦ absurd (ground arith)
  | inr e ↦ elim (Option-cases (position url links)) [
    | inl none_ ↦ ground (arith, note_new url kind links)
    | inr (i, at) ↦ absurd (ground arith)
  ]
]

note_known :
    (url : Text) (kind : LinkKind) (i : ℕ) (links : List Link)
    → position url links ≡ some i
    → note url kind links ≡ upgrade kind i links
unfolding note position next upgrade set_page better
note_known url kind i [] h = absurd (ground arith)
note_known url kind i (l ∷ links) h = elim (Bool-cases (l.url == url)) [
  | inl e ↦
      let same : zero ≡ i = ground arith in
      subst (λ k. note url kind (l ∷ links) ≡ upgrade kind k (l ∷ links)) same
        (here kind (ground arith))
  | inr e ↦ elim (Option-cases (position url links)) [
    | inl none_ ↦ absurd (ground arith)
    | inr (j, at) ↦
        let same : suc j ≡ i = ground arith in
        subst (λ k. note url kind (l ∷ links) ≡ upgrade kind k (l ∷ links)) same
          (later kind j (ground arith) (note_known url kind j links at))
  ]
]
  where
    here :
        (k : LinkKind)
        → note url k (l ∷ links) ≡ record { url = l.url; kind = better k l.kind } ∷ links
        → note url k (l ∷ links) ≡ upgrade k 0 (l ∷ links)
    here link_page e = e
    here link_other e = e

    later :
        (k : LinkKind) (j : ℕ)
        → note url k (l ∷ links) ≡ l ∷ note url k links
        → note url k links ≡ upgrade k j links
        → note url k (l ∷ links) ≡ upgrade k (suc j) (l ∷ links)
    later link_page j e e' = e ∙ ap (λ ls. l ∷ ls) e'
    later link_other j e e' = e ∙ ap (λ ls. l ∷ ls) e'

position-append :
    (u url : Text) (kind : LinkKind) (links : List Link)
    → position url links ≡ none
    → position u (links ++ record { url = url; kind = kind } ∷ [])
      ≡ (if url == u then some (length links) else position u links)
unfolding position next
position-append u url kind [] h = ground arith
position-append u url kind (l ∷ links) h = elim (Bool-cases (l.url == u)) [
  | inl e ↦ ground (arith, ==_iff l.url u, ==_iff url u, ==_iff l.url url)
  | inr e ↦ elim (Option-cases (position url links)) [
    | inl none_ ↦ ground (arith, position-append u url kind links)
    | inr (i, at) ↦ absurd (ground arith)
  ]
]

position-upgrade :
    (u : Text) (kind : LinkKind) (i : ℕ) (links : List Link)
    → position u (upgrade kind i links) ≡ position u links
unfolding position upgrade set_page
position-upgrade u link_other i links = refl
position-upgrade u link_page i [] = refl
position-upgrade u link_page zero (l ∷ links) = refl
position-upgrade u link_page (suc i) (l ∷ links) =
    ground (arith, position-upgrade u link_page i links)

add_normalized_lem :
    (url : Text) (kind : LinkKind) (acc : Accumulator)
    → IsIndexed acc
    → IsIndexed (add_normalized url kind acc)
      × ((add_normalized url kind acc).links ≡ note url kind acc.links)
unfolding add_normalized
add_normalized_lem url kind acc right = elim (Option-cases (lookup url acc.index)) [
  | inl new ↦
      let at : position url acc.links ≡ none = sym (right url) ∙ new in
      rw (new, add_normalized)
        (
          λ u.
              lookup-insert url u (length acc.links) acc.index
              ∙ ground (arith, right u, position-append u url kind acc.links at),
          sym (note_new url kind acc.links at),
        )
  | inr (i, known) ↦
      let at : position url acc.links ≡ some i = sym (right url) ∙ known in
      rw (known, add_normalized)
        (
          λ u. right u ∙ sym (position-upgrade u kind i acc.links),
          sym (note_known url kind i acc.links at),
        )
]

add_normalized-base :
    (url : Text) (kind : LinkKind) (acc : Accumulator)
    → (add_normalized url kind acc).base ≡ acc.base
unfolding add_normalized
add_normalized-base url kind acc = elim (Option-cases (lookup url acc.index)) [
  | inl e ↦ rw (e, add_normalized) refl
  | inr (i, e) ↦ rw (e, add_normalized) refl
]

add_lem :
    (net : NetUrl) (raw : Text) (kind : LinkKind) (acc : Accumulator)
    → IsIndexed acc
    → IsIndexed (add net raw kind acc)
      × ((add net raw kind acc).links ≡ (
          if is_empty (normalize_url net raw acc.base)
          then acc.links
          else note (normalize_url net raw acc.base) kind acc.links))
      × ((add net raw kind acc).base ≡ acc.base)
unfolding add
add_lem net raw kind acc right = elim (Bool-cases (is_empty (normalize_url net raw acc.base))) [
  | inl e ↦ rw (e, add) (right, refl, refl)
  | inr e ↦
      let (indexed, same) = add_normalized_lem (normalize_url net raw acc.base) kind acc right in
      rw (e, add) (indexed, same, add_normalized-base _ kind acc)
]

add_all_lem :
    (net : NetUrl) (items : List (Text × LinkKind)) (acc : Accumulator)
    → IsIndexed acc
    → (add_all net items acc).links ≡ note_all net acc.base items acc.links
unfolding add_all note_all
add_all_lem net [] acc right = refl
add_all_lem net ((raw, kind) ∷ items) acc right =
    let (indexed, links, base) = add_lem net raw kind acc right in
    add_all_lem net items (add net raw kind acc) indexed
    ∙ (ap (λ b. note_all net b items (add net raw kind acc).links) base
        ∙ ap (note_all net acc.base items) links)

-- The accumulator with its index of positions keeps the links that the plain list keeps in which each
-- URL is looked for: each stands where it came first, as a page if it ever came as one.
pub add_all-note_all :
    (net : NetUrl) (base : Option Url) (items : List (Text × LinkKind))
    → (add_all net items (new_accumulator base)).links ≡ note_all net base items []
unfolding new_accumulator position lookup
add_all-note_all net base items = add_all_lem net items (new_accumulator base) (λ url. refl)

-- ===== src/Parser/Found.antt =====
-- internal/parser: what `extractLinks` finds, in words of the document and of the scanned text.
use project_arachne.Prelude.{
  Option-cases, ◌≡◌, ◌⊎◌, refl, sym, ap, subst, inl, inr, List, [], ◌∷◌, Option, none, some, arith,
  In, In-left, In-right, In-split, list_eq, nat_eq, Text, some-injective,
}
use project_arachne.Urlnorm.{Url, NetUrl, canonical}
use project_arachne.PageParser.Trees.{Node, scan_text}
use project_arachne.Parser.{LinkKind, link_page, link_other, Engines}
use project_arachne.Parser.Whole.{
  target, targets, as_other, hyperlinks_of, scanned, requests_of, found_links,
}

-- The text that a hyperlink leads to: its `href`, or else its `src`.
abbrev pub LeadsTo : Option Text × Option Text → Text → Type 0
LeadsTo (href, src) raw = (href ≡ some raw) ⊎ ((href ≡ none) × (src ≡ some raw))

-- The text in which URLs are looked for: that of the tree, or else the body.
abbrev pub IsScanned : {D : Type 0} → Engines D → Text → Option D → Text → Type 0
IsScanned e body none scan = scan ≡ body
IsScanned e body (some doc) scan =
    ((e.root doc ≡ none) × (scan ≡ body))
    ⊎ ((node : Node) × (e.root doc ≡ some node) × (scan ≡ scan_text node))

module _ {D : Type 0} (net : NetUrl) (e : Engines D) where
  -- A hyperlink of the document leads to the URL.
  unfoldable pub IsHyperlink : Option D → Option Url → Text → Type 0
  IsHyperlink doc base url =
      (d : D) × (doc ≡ some d)
      × ((h : Option Text × Option Text) × In h (e.hyperlinks d)
          × ((raw : Text) × LeadsTo h raw × (canonical net raw base ≡ some url)))

  -- The URL stands in the scanned text, or is requested by the page, if its own URL is known.
  unfoldable pub IsMentioned : Text → Text → Option D → Option Url → Text → Type 0
  IsMentioned body media_type doc base url =
      (scan : Text) × IsScanned e body doc scan
      × ((raw : Text) × (In raw (e.loose_urls scan)
            ⊎ ((b : Url) × (base ≡ some b) × In raw (e.katana scan b media_type doc)))
          × (canonical net raw base ≡ some url))

module _ {D : Type 0} (net : NetUrl) (e : Engines D) (body : Text) where
  scanned-IsScanned : (doc : Option D) → IsScanned e body doc (scanned net e body doc)
  unfolding scanned
  scanned-IsScanned none = refl
  scanned-IsScanned (some doc) = elim (Option-cases (e.root doc)) [
    | inl r ↦ rw (r, scanned) (inl (refl, refl))
    | inr (node, r) ↦ rw (r, scanned) (inr (node, refl, refl))
  ]

  IsScanned-eq :
      (doc : Option D) (scan : Text) → IsScanned e body doc scan → scan ≡ scanned net e body doc
  unfolding scanned
  IsScanned-eq none scan h = h
  IsScanned-eq (some doc) scan (inl (r, h)) = rw (r, scanned) h
  IsScanned-eq (some doc) scan (inr (node, r, h)) = rw (r, scanned) h

target-LeadsTo :
    (h : Option Text × Option Text) (raw : Text) (k : LinkKind)
    → In (raw, k) (target h)
    → (k ≡ link_page) × LeadsTo h raw
unfolding target
target-LeadsTo (some href, src) raw k (inl same) =
    (sym (ap (λ i. i.1) same), inl (ap (λ (i : Text × LinkKind). some i.0) same))
target-LeadsTo (some href, src) raw k (inr h) = absurd h
target-LeadsTo (none, some src) raw k (inl same) =
    (sym (ap (λ i. i.1) same), inr (refl, ap (λ (i : Text × LinkKind). some i.0) same))
target-LeadsTo (none, some src) raw k (inr h) = absurd h
target-LeadsTo (none, none) raw k h = absurd h

LeadsTo-target :
    (h : Option Text × Option Text) (raw : Text) → LeadsTo h raw → In (raw, link_page) (target h)
unfolding target
LeadsTo-target (some href, src) raw (inl same) =
    inl (ap (λ (t : Text). (t, link_page)) (some-injective same))
LeadsTo-target (some href, src) raw (inr (never, same)) = absurd (ground arith)
LeadsTo-target (none, some src) raw (inl never) = absurd (ground arith)
LeadsTo-target (none, some src) raw (inr (e, same)) =
    inl (ap (λ (t : Text). (t, link_page)) (some-injective same))
LeadsTo-target (none, none) raw (inl never) = absurd (ground arith)
LeadsTo-target (none, none) raw (inr (e, never)) = absurd (ground arith)

targets-LeadsTo :
    (hs : List (Option Text × Option Text)) (raw : Text) (k : LinkKind)
    → In (raw, k) (targets hs)
    → (k ≡ link_page) × ((h : Option Text × Option Text) × In h hs × LeadsTo h raw)
unfolding targets
targets-LeadsTo [] raw k i = absurd i
targets-LeadsTo (h ∷ hs) raw k i = elim (In-split (raw, k) (target h) (targets hs) i) [
  | inl here ↦ let (page, leads) = target-LeadsTo h raw k here in (page, (h, inl refl, leads))
  | inr later ↦
      let (page, (h', at, leads)) = targets-LeadsTo hs raw k later in (page, (h', inr at, leads))
]

LeadsTo-targets :
    (hs : List (Option Text × Option Text)) (h : Option Text × Option Text) (raw : Text)
    → In h hs
    → LeadsTo h raw
    → In (raw, link_page) (targets hs)
unfolding targets
LeadsTo-targets [] h raw i leads = absurd i
LeadsTo-targets (h' ∷ hs) h raw (inl same) leads =
    In-left (raw, link_page) (target h') (targets hs)
      (subst (λ g. In (raw, link_page) (target g)) (sym same) (LeadsTo-target h raw leads))
LeadsTo-targets (h' ∷ hs) h raw (inr later) leads =
    In-right (raw, link_page) (target h') (targets hs) (LeadsTo-targets hs h raw later leads)

as_other-In :
    (texts : List Text) (raw : Text) (k : LinkKind)
    → In (raw, k) (as_other texts)
    → (k ≡ link_other) × In raw texts
unfolding as_other
as_other-In [] raw k i = absurd i
as_other-In (t ∷ texts) raw k (inl same) = (sym (ap (λ i. i.1) same), inl (ap (λ i. i.0) same))
as_other-In (t ∷ texts) raw k (inr i) =
    let (other, later) = as_other-In texts raw k i in (other, inr later)

In-as_other :
    (texts : List Text) (raw : Text) → In raw texts → In (raw, link_other) (as_other texts)
unfolding as_other
In-as_other [] raw i = absurd i
In-as_other (t ∷ texts) raw (inl same) = inl (ap (λ (t : Text). (t, link_other)) same)
In-as_other (t ∷ texts) raw (inr i) = inr (In-as_other texts raw i)

module _ {D : Type 0} (net : NetUrl) (e : Engines D) (body media_type : Text) (base : Option Url)
    (url : Text) where
  -- Some text of this kind that was found has the canonical form.
  abbrev pub Found : Option D → LinkKind → Type 0
  Found doc k =
      (raw : Text) × In (raw, k) (found_links net e body base media_type doc)
      × (canonical net raw base ≡ some url)

  requests_mentioned :
      (doc : Option D) (raw : Text) (b : Option Url)
      → In raw (requests_of net e (scanned net e body doc) b media_type doc)
      → (b' : Url) × (b ≡ some b') × In raw (e.katana (scanned net e body doc) b' media_type doc)
  unfolding requests_of
  requests_mentioned doc raw none i = absurd i
  requests_mentioned doc raw (some b) i = (b, refl, i)

  hyperlinks_of-IsHyperlink :
      (doc : Option D) (raw : Text) (k : LinkKind)
      → In (raw, k) (hyperlinks_of net e doc)
      → canonical net raw base ≡ some url
      → (k ≡ link_page) × IsHyperlink net e doc base url
  unfolding hyperlinks_of IsHyperlink
  hyperlinks_of-IsHyperlink none raw k i made = absurd i
  hyperlinks_of-IsHyperlink (some d) raw k i made =
      let (page, (h, at, leads)) = targets-LeadsTo (e.hyperlinks d) raw k i in
      (page, (d, refl, (h, at, (raw, leads, made))))

  pub Found-cases :
      (doc : Option D) (k : LinkKind)
      → Found doc k
      → ((k ≡ link_page) × IsHyperlink net e doc base url)
        ⊎ ((k ≡ link_other) × IsMentioned net e body media_type doc base url)
  unfolding found_links IsMentioned
  Found-cases doc k (raw, i, made) =
      let scan = scanned net e body doc in
      elim (In-split (raw, k) (hyperlinks_of net e doc) _ i) [
        | inl link ↦ inl (hyperlinks_of-IsHyperlink doc raw k link made)
        | inr rest ↦
            elim (In-split (raw, k) (as_other (requests_of net e scan base media_type doc)) _
              rest) [
                | inl asked ↦
                    let (other, at) = as_other-In _ raw k asked in
                    inr (
                      other,
                      (
                        scan,
                        scanned-IsScanned net e body doc,
                        (raw, inr (requests_mentioned doc raw base at), made),
                      ),
                    )
                | inr loose ↦
                    let (other, at) = as_other-In _ raw k loose in
                    inr (other, (scan, scanned-IsScanned net e body doc, (raw, inl at, made)))
              ]
      ]

  pub hyperlink-Found : (doc : Option D) → IsHyperlink net e doc base url → Found doc link_page
  unfolding found_links hyperlinks_of IsHyperlink
  hyperlink-Found none (d, never, rest) = absurd (ground arith)
  hyperlink-Found (some d') (d, same, (h, at, (raw, leads, made))) = (
    raw,
    In-left (raw, link_page) (targets (e.hyperlinks d')) _
        (subst (λ c. In (raw, link_page) (targets (e.hyperlinks c))) (sym (some-injective same))
          (LeadsTo-targets (e.hyperlinks d) h raw at leads)),
    made,
  )

  pub mentioned-Found :
      (doc : Option D) → IsMentioned net e body media_type doc base url → Found doc link_other
  unfolding found_links IsMentioned requests_of
  mentioned-Found doc (scan, is, (raw, inl loose, made)) = (
    raw,
    In-right (raw, link_other) (hyperlinks_of net e doc) _
        (In-right (raw, link_other) (as_other (requests_of net e _ base media_type doc)) _
          (In-as_other _ raw
            (subst (λ t. In raw (e.loose_urls t)) (IsScanned-eq net e body doc scan is) loose))),
    made,
  )
  mentioned-Found doc (scan, is, (raw, inr (b, known, asked), made)) = (
    raw,
    In-right (raw, link_other) (hyperlinks_of net e doc) _
        (In-left (raw, link_other) (as_other (requests_of net e _ base media_type doc)) _
          (In-as_other (requests_of net e _ base media_type doc) raw (
            subst (λ b'. In raw (requests_of net e (scanned net e body doc) b' media_type doc))
              (sym known)
              (subst (λ t. In raw (e.katana t b media_type doc))
                (IsScanned-eq net e body doc scan is) asked)))),
    made,
  )

-- ===== src/VectorStore/Replacing.antt =====
-- internal/vectorstore/milvus.go, store.go: `Replace` makes the stored rows of a page exactly the rows
-- that it is given.
use project_arachne.Prelude.{
  ℕ, ◌≢◌, ◌≡◌, refl, sym, ap, ◌∙◌, subst, inl, inr, ◌⊎◌, List, [], ◌∷◌, false, not, Option, none,
  some, some-injective, arith, In, is_seen, length, leb, Bool-cases, Option-cases, Text, list_eq,
  nat_eq,
}
use project_arachne.VectorStore.{
  Row, Answer, query_failed, no_column, column, Client, StoreError, existing_ids_limit,
  validate_all, read_cells, Existing, not_read, existing, as_existing, ids_of, existing_ids,
  row_ids, stale_ids, delete_stale, write_rows, replace,
}
use project_arachne.VectorStore.Batches.{Ends}
use project_arachne.VectorStore.Rows.{
  ClientLaws, OneRow, In-filter, is_seen-row_ids, row_ids-is_seen,
}
use project_arachne.VectorStore.Upserting.{Grown, Writing, upserts-Ends}
use project_arachne.VectorStore.Deleting.{Pruned, Deleting, deletes-Ends}

read_cells-In :
    (cells : List (Option Text)) (ids : List Text) (id : Text)
    → read_cells cells ≡ some ids
    → (In (some id) cells → In id ids) × (In id ids → In (some id) cells)
unfolding read_cells
read_cells-In [] ids id h =
    subst
      (λ xs.
        (In {A = Option Text} (some id) [] → In id xs)
        × (In id xs → In {A = Option Text} (some id) []))
      (some-injective h) (λ b. absurd b, λ b. absurd b)
read_cells-In (none ∷ cells) ids id h = absurd (ground arith)
read_cells-In (some x ∷ cells) ids id h = elim (Option-cases (read_cells cells)) [
  | inl e ↦ absurd (ground arith)
  | inr (rest, e) ↦
      let same : x ∷ rest ≡ ids = ground arith in
      let (to, from) = read_cells-In cells rest id e in
      subst
        (λ xs.
          (In (some id) (some x ∷ cells) → In id xs) × (In id xs → In (some id) (some x ∷ cells)))
        same
        (
          λ there. elim there [ inl here ↦ inl (some-injective here) | inr later ↦ inr (to later) ],
          λ there. elim there [ inl here ↦ inl (ap some here) | inr later ↦ inr (from later) ],
        )
]

existing-injective : (xs ys : List Text) → existing xs ≡ existing ys → xs ≡ ys
existing-injective xs ys h = ground arith

module _ {S V : Type 0} (c : Client S V) (stored : S → Text → Option (Row V))
    (laws : ClientLaws c stored) (url : Text) where
  -- The IDs are those of the rows of the page.
  abbrev Lists : S → List Text → Type 0
  Lists s old =
      (id : Text)
      → (In id old → (r : Row V) × (stored s id ≡ some r) × (r.url ≡ url))
        × ((r : Row V) → stored s id ≡ some r → r.url ≡ url → In id old)

  existing_ids-Lists : (s : S) (old : List Text) → existing_ids c url s ≡ existing old → Lists s old
  unfolding existing_ids ids_of as_existing
  existing_ids-Lists s old h = go (c.query url s) refl h
    where
      go : (a : Answer) → c.query url s ≡ a → ids_of a ≡ existing old → Lists s old
      go query_failed e h = absurd (ground arith)
      go no_column e h =
          subst (Lists s) (existing-injective [] old h)
            (λ id. (λ b. absurd b, λ r at of. absurd (laws.queried_none url s id r e at of)))
      go (column cells) e h = elim (Bool-cases (leb existing_ids_limit (length cells))) [
        | inl many ↦ absurd (ground arith)
        | inr few ↦ elim (Option-cases (read_cells cells)) [
          | inl odd ↦ absurd (ground arith)
          | inr (ids, read) ↦
              let same : ids ≡ old = ground arith in
              let facts = laws.queried url s cells e (ground arith) in
              subst (Lists s) same (λ id.
                let (to, from) = read_cells-In cells ids id read in
                (λ there. (facts id).0 (from there), λ r at of. to ((facts id).1 r at of)))
        ]
      ]

  module _ (rows : List (Row V)) (one : OneRow rows) (start : S) where
    -- The rows of the page are exactly the given ones, and no row of another page is touched but one
    -- whose ID a given row has.
    pub record Replaced (s : S) : Type 0 where
      pub all : (r : Row V) → In r rows → stored s r.id ≡ some r
      pub only : (r : Row V) → stored s r.id ≡ some r → r.url ≡ url → In r rows
      pub others :
          (id : Text) (r : Row V)
          → stored start id ≡ some r
          → r.url ≢ url
          → is_seen id (row_ids rows) ≡ false
          → stored s id ≡ some r

    -- All rows are stored, or no row is gone.
    abbrev pub IsSafe : S → Type 0
    IsSafe s =
        ((r : Row V) → In r rows → stored s r.id ≡ some r)
        ⊎ ((id : Text) (r : Row V)
            → stored start id ≡ some r
            → (q : Row V) × (stored s id ≡ some q))

    stale_unseen :
        (old : List Text) (id : Text)
        → In id (stale_ids old rows)
        → In id old × (is_seen id (row_ids rows) ≡ false)
    unfolding stale_ids
    stale_unseen old id h =
        let (there, odd) = (In-filter (λ i. not (is_seen i (row_ids rows))) id old).0 h in
        (there, ground arith)

    all_kept :
        (old : List Text) (s1 s2 : S)
        → Writing c stored laws rows start [] s1
        → Pruned c stored laws (stale_ids old rows) s1 s2
        → (r : Row V) → In r rows
        → stored s2 r.id ≡ some r
    all_kept old s1 s2 w p r there = elim (w.written r there) [
      | inl b ↦ absurd b
      | inr e ↦ elim (p r.id) [
        | inl same ↦ same ∙ e
        | inr (is_stale, none_) ↦
            absurd
              (ground (arith, (stale_unseen old r.id is_stale).1, row_ids-is_seen rows r there))
      ]
    ]

    -- A row of the page that is left is one of the given ones.
    deleted-only :
        (old : List Text) (s1 s2 : S)
        → Lists start old
        → Writing c stored laws rows start [] s1
        → Deleting c stored laws (stale_ids old rows) s1 [] s2
        → (r : Row V) → stored s2 r.id ≡ some r
        → r.url ≡ url
        → In r rows
    unfolding stale_ids
    deleted-only old s1 s2 lists w d r at of = elim (Bool-cases (is_seen r.id (row_ids rows))) [
      | inl seen ↦
          let (q, there, keyed) = is_seen-row_ids r.id rows seen in
          let at' : stored s2 r.id ≡ some q =
            subst (λ i. stored s2 i ≡ some q) keyed (all_kept old s1 s2 w d.pruned q there) in
          subst (λ t. In t rows) (some-injective (sym at' ∙ at)) there
      | inr new ↦ elim (d.pruned r.id) [
        | inr (is_stale, none_) ↦ absurd (ground arith)
        | inl same ↦
            let was = sym (w.grown.others r.id new) ∙ (sym same ∙ at) in
            let is_stale =
              (In-filter (λ i. not (is_seen i (row_ids rows))) r.id old).1
                ((lists r.id).1 r was of, ground arith) in
            elim (d.gone r.id is_stale) [ inl b ↦ absurd b | inr none_ ↦ absurd (ground arith) ]
      ]
    ]

    deleted-Replaced :
        (old : List Text) (s1 s2 : S)
        → Lists start old
        → Writing c stored laws rows start [] s1
        → Deleting c stored laws (stale_ids old rows) s1 [] s2
        → Replaced s2
    deleted-Replaced old s1 s2 lists w d = record {
      all = all_kept old s1 s2 w d.pruned;
      only = deleted-only old s1 s2 lists w d;
      others = λ id r at other new. elim (d.pruned id) [
        | inl same ↦ same ∙ (w.grown.others id new ∙ at)
        | inr (is_stale, none_) ↦
            let (q, at', of) = (lists id).0 (stale_unseen old id is_stale).0 in
            absurd (other (ap (λ t. t.url) (some-injective (sym at ∙ at')) ∙ of))
      ];
    }

    delete_stale-Ends :
        (old : List Text) (p : Option StoreError × S)
        → Lists start old
        → Ends (Writing c stored laws rows start []) (Grown c stored laws rows start) p
        → Ends Replaced IsSafe (delete_stale c old rows p)
    unfolding delete_stale
    delete_stale-Ends old (some e, s1) lists ends =
        (λ h. absurd (ground arith), λ e' h. inr (ends.1 e refl).stays)
    delete_stale-Ends old (none, s1) lists ends =
        let w = ends.0 refl in
        let deleted = deletes-Ends c stored laws (stale_ids old rows) s1 in
        (
          λ h. deleted-Replaced old s1 _ lists w (deleted.0 h),
          λ e h. inl (all_kept old s1 _ w (deleted.1 e h)),
        )

    write_rows-Ends :
        (x : Existing)
        → ((old : List Text) → x ≡ existing old → Lists start old)
        → Ends Replaced IsSafe (write_rows c rows x start)
    unfolding write_rows
    write_rows-Ends (not_read e) lists =
        (λ h. absurd (ground arith), λ e' h. inr (λ id r at. (r, at)))
    write_rows-Ends (existing old) lists =
        delete_stale-Ends old _ (lists old refl) (upserts-Ends c stored laws rows start one)

    replace-Ends : (dimension : ℕ) → Ends Replaced IsSafe (replace c dimension url rows start)
    unfolding replace
    replace-Ends dimension = elim (Bool-cases (validate_all dimension url rows)) [
      | inl valid ↦
          rw (valid, replace)
            (write_rows-Ends (existing_ids c url start) (existing_ids-Lists start))
      | inr odd ↦ rw (odd, replace) (λ h. absurd (ground arith), λ e h. inr (λ id r at. (r, at)))
    ]

    -- A replacement that reports no error has made the stored rows of the page exactly the given ones,
    -- and has left every row of another page as it was, unless a given row has its ID. Milvus keeps its
    -- promises, and no two given rows have one ID.
    pub replace-Replaced :
        (dimension : ℕ)
        → (replace c dimension url rows start).0 ≡ none
        → Replaced (replace c dimension url rows start).1
    replace-Replaced dimension = (replace-Ends dimension).0

    -- A replacement that reports an error has not lost the page: all given rows are stored, or every ID
    -- that was stored before still is. Milvus keeps its promises, and no two given rows have one ID.
    pub replace-IsSafe :
        (dimension : ℕ) (e : StoreError)
        → (replace c dimension url rows start).0 ≡ some e
        → IsSafe (replace c dimension url rows start).1
    replace-IsSafe dimension = (replace-Ends dimension).1

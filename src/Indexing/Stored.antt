-- ===== src/Indexing/Stored.antt =====
-- internal/indexing: a document that is submitted with success is what the index holds of its page.
use project_arachne.Prelude.{
  ℕ, ◌<◌, ◌≡◌, ◌≢◌, refl, sym, ap, ◌∙◌, subst, inl, inr, List, [], ◌∷◌, map, false, Option, none,
  some, some-injective, arith, In, ==_iff, is_seen, length, Option-cases, Text, list_eq, nat_eq,
}
use project_arachne.Urlnorm.{NetUrl}
use project_arachne.Documents.{Document}
use project_arachne.Chunker.Paragraph.{Settings, Chunk, chunk}
use project_arachne.Chunker.Numbering.{NewIds, chunk-CountFrom}
use project_arachne.Embedding.{Response, embed}
use project_arachne.Embedding.Placed.{embed-IsComplete}
use project_arachne.Indexing.{Batch}
use project_arachne.VectorStore.{Row, Client, row_ids}
use project_arachne.VectorStore.Rows.{ClientLaws, OneRow}
use project_arachne.VectorStore.Replacing.{Replaced, replace-Replaced}
use project_arachne.Indexing.Vectors.{
  panicked, replaced, texts_of, with_row, vectors_of, row_of, rows_of, replace_rows,
  after_embedding, submit_batch,
}

length-texts_of : (chunks : List Chunk) → length (texts_of chunks) ≡ length chunks
unfolding texts_of
length-texts_of [] = refl
length-texts_of (c ∷ chunks) = omega (arith, length-texts_of chunks)

module _ {V : Type 0} where
  with_row-some :
      (row : Row V) (o : Option (List (Row V))) (rows : List (Row V))
      → with_row row o ≡ some rows
      → (rest : List (Row V)) × (o ≡ some rest) × (row ∷ rest ≡ rows)
  unfolding with_row
  with_row-some row none rows h = absurd (ground arith)
  with_row-some row (some rest) rows h = (rest, refl, some-injective h)

module _ {V : Type 0} (net : NetUrl) (now : ℕ) (batch : Batch) where
  rows_of_ids :
      (chunks : List Chunk) (vectors : List (List V)) (rows : List (Row V))
      → rows_of net now batch chunks vectors ≡ some rows
      → row_ids rows ≡ map (λ c. c.id) chunks
  unfolding rows_of row_ids row_of
  rows_of_ids [] vectors rows h = subst (λ rs. row_ids rs ≡ []) (some-injective h) refl
  rows_of_ids (c ∷ chunks) [] rows h = absurd (ground arith)
  rows_of_ids (c ∷ chunks) (v ∷ vectors) rows h =
      let (rest, e, same) = with_row-some (row_of net now batch c v) _ rows h in
      subst (λ rs. row_ids rs ≡ c.id ∷ map (λ c. c.id) chunks) same
        (ap (λ is. c.id ∷ is) (rows_of_ids chunks vectors rest e))

  rows_of-enough :
      (chunks : List Chunk) (vectors : List (List V))
      → length vectors ≡ length chunks
      → rows_of net now batch chunks vectors ≢ none
  unfolding rows_of with_row
  rows_of-enough [] vectors h e = absurd (ground arith)
  rows_of-enough (c ∷ chunks) [] h e = absurd (omega arith)
  rows_of-enough (c ∷ chunks) (v ∷ vectors) h e =
      elim (Option-cases (rows_of net now batch chunks vectors)) [
        | inl none_ ↦ rows_of-enough chunks vectors (omega arith) none_
        | inr (rows, e') ↦ ground arith
      ]

-- The IDs are new, one after the other.
abbrev Fresh : List Text → List Text → Type 0
Fresh seen [] = Unit
Fresh seen (id ∷ ids) = (is_seen id seen ≡ false) × Fresh (id ∷ seen) ids

NewIds-Fresh :
    (seen : List Text) (chunks : List Chunk)
    → NewIds seen chunks
    → Fresh seen (map (λ c. c.id) chunks)
NewIds-Fresh seen [] h = tt
NewIds-Fresh seen (c ∷ chunks) (new, h) = (new, NewIds-Fresh (c.id ∷ seen) chunks h)

Fresh-OneRow :
    {V : Type 0} (rows : List (Row V)) (seen : List Text)
    → Fresh seen (row_ids rows)
    → ((q : Row V) → In q rows → is_seen q.id seen ≡ false) × OneRow rows
unfolding row_ids
Fresh-OneRow [] seen h = (λ q b. absurd b, λ q r b. absurd b)
Fresh-OneRow (p ∷ rows) seen (new, h) =
    let (later, one) = Fresh-OneRow rows (p.id ∷ seen) h in
    (
      λ q there. elim there [
        | inl e ↦ subst (λ t. is_seen t.id seen ≡ false) e new
        | inr in_rows ↦ ground (arith, later q in_rows)
      ],
      λ q r at_q at_r same. elim at_q [
        | inl e ↦ elim at_r [
          | inl e' ↦ sym e ∙ e'
          | inr in_r ↦
              absurd (ground (arith, later r in_r, ==_iff p.id r.id, ap (λ t. t.id) e ∙ same))
        ]
        | inr in_q ↦ elim at_r [
          | inl e' ↦
              absurd (ground (arith, later q in_q, ==_iff p.id q.id, ap (λ t. t.id) e' ∙ sym same))
          | inr in_r ↦ one q r in_q in_r same
        ]
      ],
    )

vectors_of_lem :
    {V : Type 0} (embedder : List Text → Option (List (List V))) (chunks : List Chunk)
    (vs : List (List V))
    → ((texts : List Text) (us : List (List V))
        → embedder texts ≡ some us
        → length us ≡ length texts)
    → vectors_of embedder chunks ≡ some vs
    → length vs ≡ length chunks
unfolding vectors_of
vectors_of_lem embedder [] vs full h = subst (λ us. length us ≡ 0) (some-injective h) refl
vectors_of_lem embedder (c ∷ chunks) vs full h =
    full (texts_of (c ∷ chunks)) vs h ∙ length-texts_of (c ∷ chunks)

module _ {S V : Type 0} (net : NetUrl) (c : Client S V) (stored : S → Text → Option (Row V))
    (laws : ClientLaws c stored) (dimension now : ℕ) (batch : Batch) (s : S)
    (fresh : NewIds [] batch.chunks) where
  -- The rows of the batch's chunks, with their vectors, are what the store holds of the page.
  pub record IsIndexed (embedder : List Text → Option (List (List V))) (s' : S) : Type 0 where
    pub vectors : List (List V)
    pub embedded : vectors_of embedder batch.chunks ≡ some vectors
    pub rows : List (Row V)
    pub made : rows_of net now batch batch.chunks vectors ≡ some rows
    pub one : OneRow rows
    pub held : Replaced c stored laws batch.document.url rows one s s'

  replace_rows-Replaced :
      (rows : List (Row V)) (one : OneRow rows)
      → (replace_rows net c dimension batch (some rows) s).0 ≡ replaced none
      → Replaced c stored laws batch.document.url rows one s
          (replace_rows net c dimension batch (some rows) s).1
  unfolding replace_rows
  replace_rows-Replaced rows one h =
      replace-Replaced c stored laws batch.document.url rows one s dimension (ground arith)

  -- If the embedder returns one vector for each text, the sink does not panic, and where it reports no
  -- error the store holds exactly the rows of the batch's chunks for the page.
  pub submit_batch-IsIndexed :
      (embedder : List Text → Option (List (List V)))
      → ((texts : List Text) (us : List (List V))
          → embedder texts ≡ some us
          → length us ≡ length texts)
      → ((submit_batch net c dimension embedder now batch s).0 ≢ panicked)
        × ((submit_batch net c dimension embedder now batch s).0 ≡ replaced none
            → IsIndexed embedder (submit_batch net c dimension embedder now batch s).1)
  unfolding submit_batch after_embedding replace_rows
  submit_batch-IsIndexed embedder full = elim (Option-cases (vectors_of embedder batch.chunks)) [
    | inl e ↦ rw (e, after_embedding) (λ h. absurd (ground arith), λ h. absurd (ground arith))
    | inr (vs, e) ↦
        let same = vectors_of_lem embedder batch.chunks vs full e in
        elim (Option-cases (rows_of net now batch batch.chunks vs)) [
          | inl none_ ↦ absurd (rows_of-enough net now batch batch.chunks vs same none_)
          | inr (rows, made) ↦
              let one =
                (Fresh-OneRow rows [] (
                  subst (Fresh []) (sym (rows_of_ids net now batch batch.chunks vs rows made))
                    (NewIds-Fresh [] batch.chunks fresh))).1 in
              rw (e, after_embedding)
                (rw (made, replace_rows)
                  (
                    λ h. absurd (ground arith),
                    λ h. record {
                      vectors = vs;
                      embedded = e;
                      rows = rows;
                      made = made;
                      one = one;
                      held = replace_rows-Replaced rows one h;
                    },
                  ))
        ]
  ]

-- The chunks of a document, embedded by the client of the endpoint and put into Milvus: the sink does
-- not panic, and where it reports no error the store holds exactly the rows of the chunks for the page.
-- Milvus keeps its promises, and the batches have a positive size.
pub submit_batch-chunk :
    {S V : Type 0} (net : NetUrl) (c : Client S V) (stored : S → Text → Option (Row V))
    (laws : ClientLaws c stored) (dimension now : ℕ) (s : S) (digest : Text → Text)
    (settings : Settings) (doc : Document) (hash : Text) (batch_size max_retries : ℕ)
    (respond : List Text → ℕ → Response V)
    → 0 < batch_size
    → let batch : Batch = record {
      document = doc;
      hash = hash;
      chunks = chunk digest settings (some doc);
    } in
      let embedder : List Text → Option (List (List V)) = embed batch_size max_retries respond in
      ((submit_batch net c dimension embedder now batch s).0 ≢ panicked)
      × ((submit_batch net c dimension embedder now batch s).0 ≡ replaced none
          → IsIndexed net c stored laws dimension now batch s
              (chunk-CountFrom digest settings doc).2
              embedder
              (submit_batch net c dimension embedder now batch s).1)
submit_batch-chunk net c stored laws dimension now s digest settings doc hash batch_size max_retries
      respond positive =
    submit_batch-IsIndexed net c stored laws dimension now
      (record { document = doc; hash = hash; chunks = chunk digest settings (some doc) }) s
      (chunk-CountFrom digest settings doc).2 (embed batch_size max_retries respond)
      (λ texts us e. (embed-IsComplete batch_size max_retries respond texts us positive e).0.0)

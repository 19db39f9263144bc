-- ===== src/Chunker/Numbering.antt =====
-- What `Chunk` returns: chunks within the limit, numbered from 0, with distinct IDs.
use project_arachne.Prelude.{
  is_seen, ℕ, suc, ◌≤◌, ◌≡◌, refl, List, [], ◌∷◌, false, some, ◌||◌, ltb, leb, nat_eq, list_eq,
  length, All, Bool-cases, inl, inr, Text,
}
use project_arachne.Documents.{Document}
use project_arachne.Chunker.Split.{split_paragraphs}
use project_arachne.Chunker.Paragraph.{
  Settings, Chunk, embedding_text, chunk_id, number_from, content_runes, pack, units_from,
  chunk_document, chunk,
}
use project_arachne.Chunker.Packing.{IsShort, pack-IsShort}

-- The ordinals count up from n.
abbrev pub CountFrom : ℕ → List Chunk → Type 0
CountFrom n [] = Unit
CountFrom n (c ∷ cs) = (c.ordinal ≡ n) × CountFrom (suc n) cs

-- No ID comes twice, and none that was seen.
abbrev pub NewIds : List Text → List Chunk → Type 0
NewIds seen [] = Unit
NewIds seen (c ∷ cs) = (is_seen c.id seen ≡ false) × NewIds (c.id ∷ seen) cs

module _ (digest : Text → Text) (doc : Document) where
  number_from-CountFrom :
      (seen : List Text) (n : ℕ) (texts : List Text)
      → CountFrom n (number_from digest doc seen n texts)
        × NewIds seen (number_from digest doc seen n texts)
  unfolding number_from
  number_from-CountFrom seen n [] = (tt, tt)
  number_from-CountFrom seen n (t ∷ ts) =
      let id = chunk_id digest doc.url (embedding_text doc.title t) in
      elim (Bool-cases (is_seen id seen)) [
        | inl old ↦ rw (old, number_from) (number_from-CountFrom seen n ts)
        | inr new ↦
            let (counts, fresh) = number_from-CountFrom (id ∷ seen) (suc n) ts in
            rw (new, number_from) ((refl, counts), (new, fresh))
      ]

  number_from-All {κ} :
      (P : Text → Type κ) (seen : List Text) (n : ℕ) (texts : List Text)
      → All P texts
      → All (λ c. P c.text) (number_from digest doc seen n texts)
  unfolding number_from
  number_from-All P seen n [] h = tt
  number_from-All P seen n (t ∷ ts) (h, hs) =
      let id = chunk_id digest doc.url (embedding_text doc.title t) in
      elim (Bool-cases (is_seen id seen)) [
        | inl old ↦ rw (old, number_from) (number_from-All P seen n ts hs)
        | inr new ↦ rw (new, number_from) (h, number_from-All P (id ∷ seen) (suc n) ts hs)
      ]

-- A document's chunks are no longer than the limit, are numbered from 0 in their order, and no two
-- of them have one ID.
pub chunk-CountFrom :
    (digest : Text → Text) (s : Settings) (doc : Document)
    → let chunks = chunk digest s (some doc) in
      All (λ c. length c.text ≤ s.max_runes) chunks × CountFrom 0 chunks × NewIds [] chunks
unfolding chunk chunk_document
chunk-CountFrom digest s doc =
    let paragraphs = split_paragraphs doc.content in
    elim (Bool-cases
      (leb (length paragraphs) 0 || ltb (content_runes paragraphs) s.min_document_runes)) [
        | inl none_left ↦ rw (none_left, chunk, chunk_document) (tt, tt, tt)
        | inr enough ↦
            rw (enough, chunk, chunk_document)
              (
                number_from-All digest doc (λ t. length t ≤ s.max_runes) [] 0 _
                    (unfold IsShort in pack-IsShort s paragraphs),
                (number_from-CountFrom digest doc [] 0 (pack s (units_from s 0 paragraphs))).0,
                (number_from-CountFrom digest doc [] 0 (pack s (units_from s 0 paragraphs))).1,
              )
      ]

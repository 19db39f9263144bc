-- ===== src/Chunker/Pieces.antt =====
-- What split.go and `units` hand to the packing: pieces within the limit, whose runes are counted
-- right.
use project_arachne.Prelude.{
  ℕ, zero, suc, ◌+◌, ◌≡◌, ◌≤◌, refl, List, [], ◌∷◌, ltb, leb, length, drop, length-take,
  length-append, All, All-append, Bool-cases, inl, inr, Text, arith,
}
use project_arachne.Strings.{fields, split}
use project_arachne.Chunker.Split.{
  Piece, space, newline, cut_word, flush_words, gap, joined, words, split_words, set_lead,
  sentence_pieces, line_pieces, lines_pieces, split_sentences, split_oversized,
}
use project_arachne.Chunker.Paragraph.{
  Settings, TextUnit, piece_units, mark_first, paragraph_units, units_from,
}

unfoldable pub Fits : ℕ → Piece → Type 0
Fits limit p = length p.text ≤ limit

module _ (limit : ℕ) where
  cut_word-Fits : (fuel : ℕ) (lead word : Text) → All (Fits limit) (cut_word fuel limit lead word)
  unfolding cut_word Fits
  cut_word-Fits zero lead word = tt
  cut_word-Fits (suc fuel) lead [] = tt
  cut_word-Fits (suc fuel) lead (r ∷ rs) =
      (omega (arith, length-take limit (r ∷ rs)), cut_word-Fits fuel [] (drop limit (r ∷ rs)))

  flush_words-Fits :
      (current : Text) (runes : ℕ)
      → runes ≡ length current
      → runes ≤ limit
      → All (Fits limit) (flush_words current runes)
  unfolding flush_words Fits
  flush_words-Fits current runes e h = elim (Bool-cases (ltb 0 runes)) [
    | inl t ↦ rw t (ground arith, tt)
    | inr f ↦ rw f tt
  ]

  length-joined :
      (current : Text) (runes : ℕ) (w : Text)
      → runes ≡ length current
      → runes + gap runes + length w ≡ length (joined current runes w)
  unfolding joined gap
  length-joined current runes w e =
      ground (arith, length-append current (0x20 ∷ w), length-append current w)

  words-Fits :
      (current : Text) (runes : ℕ) (ws : List Text)
      → runes ≡ length current
      → runes ≤ limit
      → All (Fits limit) (words limit current runes ws)
  unfolding words
  words-Fits current runes [] e h = flush_words-Fits current runes e h
  words-Fits current runes (w ∷ ws) e h = elim (Bool-cases (ltb limit (length w))) [
    | inl long ↦
        rw (long, words)
          (All-append (Fits limit) (flush_words current runes) _
            (flush_words-Fits current runes e h)
            (All-append (Fits limit) (cut_word (length w) limit space w) _
              (cut_word-Fits (length w) space w) (words-Fits [] 0 ws refl (omega arith))))
    | inr short ↦ elim (Bool-cases (ltb limit (runes + gap runes + length w))) [
      | inl full ↦
          rw (short, words)
            (rw (full, words)
              (All-append (Fits limit) (flush_words current runes) _
                (flush_words-Fits current runes e h)
                (words-Fits w (length w) ws refl (ground arith))))
      | inr free ↦
          rw (short, words)
            (rw (free, words)
              (words-Fits (joined current runes w) (runes + gap runes + length w) ws
                (length-joined current runes w e) (ground arith)))
    ]
  ]

  set_lead-Fits :
      (lead : Text) (ps : List Piece) → All (Fits limit) ps → All (Fits limit) (set_lead lead ps)
  unfolding set_lead Fits
  set_lead-Fits lead [] h = tt
  set_lead-Fits lead (p ∷ ps) h = h

  sentence_pieces-Fits :
      (lead sentence : Text) → All (Fits limit) (sentence_pieces limit lead sentence)
  unfolding sentence_pieces split_words
  sentence_pieces-Fits lead sentence = elim (Bool-cases (leb (length sentence) limit)) [
    | inl short ↦ rw (short, sentence_pieces) (unfold Fits in (ground arith, tt))
    | inr long ↦
        rw (long, sentence_pieces)
          (set_lead-Fits lead _ (words-Fits [] 0 (fields sentence) refl (omega arith)))
  ]

  line_pieces-Fits : (lead : Text) (ss : List Text) → All (Fits limit) (line_pieces limit lead ss)
  unfolding line_pieces
  line_pieces-Fits lead [] = tt
  line_pieces-Fits lead (s ∷ ss) =
      All-append (Fits limit) (sentence_pieces limit lead s) _ (sentence_pieces-Fits lead s)
        (line_pieces-Fits space ss)

  lines_pieces-Fits : (lead : Text) (ls : List Text) → All (Fits limit) (lines_pieces limit lead ls)
  unfolding lines_pieces
  lines_pieces-Fits lead [] = tt
  lines_pieces-Fits lead (l ∷ ls) =
      All-append (Fits limit) (line_pieces limit lead (split_sentences l)) _
        (line_pieces-Fits lead (split_sentences l)) (lines_pieces-Fits newline ls)

-- However long its lines, sentences and words are: a paragraph is cut into pieces that are no longer
-- than the limit.
pub split_oversized-Fits :
    (paragraph : Text) (limit : ℕ) → All (Fits limit) (split_oversized paragraph limit)
unfolding split_oversized
split_oversized-Fits paragraph limit = lines_pieces-Fits limit [] (split 0xa paragraph)

-- A unit that is counted right and fits a chunk of its own.
unfoldable pub IsMeasured : ℕ → TextUnit → Type 0
IsMeasured limit u = (u.runes ≡ length u.text) × (u.runes ≤ limit)

module _ (s : Settings) where
  piece_units-IsMeasured :
      (i : ℕ) (ps : List Piece)
      → All (Fits s.max_runes) ps
      → All (IsMeasured s.max_runes) (piece_units i ps)
  unfolding piece_units IsMeasured Fits
  piece_units-IsMeasured i [] h = tt
  piece_units-IsMeasured i (p ∷ ps) (h, hs) = ((refl, h), piece_units-IsMeasured i ps hs)

  mark_first-IsMeasured :
      (runes : ℕ) (us : List TextUnit)
      → All (IsMeasured s.max_runes) us
      → All (IsMeasured s.max_runes) (mark_first runes us)
  unfolding mark_first IsMeasured
  mark_first-IsMeasured runes [] h = tt
  mark_first-IsMeasured runes (u ∷ us) h = h

  paragraph_units-IsMeasured :
      (i : ℕ) (p : Text) → All (IsMeasured s.max_runes) (paragraph_units s i p)
  unfolding paragraph_units
  paragraph_units-IsMeasured i p = elim (Bool-cases (leb (length p) s.max_runes)) [
    | inl short ↦ rw (short, paragraph_units) (unfold IsMeasured in ((refl, ground arith), tt))
    | inr long ↦
        rw (long, paragraph_units)
          (mark_first-IsMeasured (length p) _
            (piece_units-IsMeasured i _ (split_oversized-Fits p s.max_runes)))
  ]

  pub units_from-IsMeasured :
      (i : ℕ) (ps : List Text) → All (IsMeasured s.max_runes) (units_from s i ps)
  unfolding units_from
  units_from-IsMeasured i [] = tt
  units_from-IsMeasured i (p ∷ ps) =
      All-append (IsMeasured s.max_runes) (paragraph_units s i p) _ (paragraph_units-IsMeasured i p)
        (units_from-IsMeasured (suc i) ps)

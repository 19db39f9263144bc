-- ===== src/Chunker/Split.antt =====
-- internal/chunker/split.go: paragraphs, sentences, words. A text is a list of code points, so what
-- the code counts in runes is a length.
use project_arachne.Prelude.{
  ℕ, zero, suc, ◌+◌, List, [], ◌∷◌, ◌++◌, Bool, true, false, ◌||◌, ltb, leb, if◌then◌else◌, ◌==◌,
  nat_eq, length, take, drop, Text,
}
use project_arachne.Strings.{is_space, trim_space, is_empty, split, fields, join}

pub record Piece : Type 0 where
  pub text : Text
  pub lead : Text

abbrev pub space : Text
space = 0x20 ∷ []

abbrev pub newline : Text
newline = 0xa ∷ []

-- `flush` of `splitParagraphs`: the held lines as one paragraph.
unfoldable pub flush_lines : List Text → List Text
flush_lines [] = []
flush_lines (l ∷ ls) = join newline (l ∷ ls) ∷ []

-- The loop over the lines: those held since the last paragraph, and those to come.
unfoldable pub collect_lines : List Text → List Text → List Text
collect_lines held [] = flush_lines held
collect_lines held (l ∷ ls) =
    let line = join space (fields l) in
    elim (is_empty line) [
      | true ↦ flush_lines held ++ collect_lines [] ls
      | false ↦ collect_lines (held ++ line ∷ []) ls
    ]

unfoldable pub split_paragraphs : Text → List Text
split_paragraphs content = collect_lines [] (split 0xa content)

unfoldable pub is_terminator : ℕ → Bool
is_terminator r = r == b'.' || r == b'!' || r == b'?' || r == 0x2026

unfoldable pub is_closer : ℕ → Bool
is_closer r =
    r == 0x22
    || r == 0x27
    || r == b')'
    || r == b']'
    || r == b'}'
    || r == 0xbb
    || r == 0x201d
    || r == 0x2019

-- How many terminators and closers stand in front: `end - (i + 1)`.
unfoldable pub closing_run : Text → ℕ
closing_run [] = 0
closing_run (r ∷ rs) =
    let rest = closing_run rs in if is_terminator r || is_closer r then suc rest else 0

unfoldable pub starts_with_space : Text → Bool
starts_with_space [] = false
starts_with_space (r ∷ rs) = is_space r

unfoldable pub trimmed : Text → List Text
trimmed s = let sentence = trim_space s in if is_empty sentence then [] else sentence ∷ []

-- The loop of `splitSentences`: what stands from `start` to `i`, how many runes a found end makes
-- `i` jump over, and what stands from `i` on.
unfoldable pub sentences : Text → ℕ → Text → List Text
sentences segment skip [] = trimmed segment
sentences segment (suc skip) (r ∷ rs) = sentences segment skip rs
sentences segment zero (r ∷ rs) = elim (is_terminator r) [
  | false ↦ sentences (segment ++ r ∷ []) 0 rs
  | true ↦
      let n = closing_run rs in
      elim (starts_with_space (drop n rs)) [
        | true ↦ trimmed (segment ++ r ∷ take n rs) ++ sentences [] (suc n) rs
        | false ↦ sentences (segment ++ r ∷ []) 0 rs
      ]
]

unfoldable pub split_sentences : Text → List Text
split_sentences line = sentences [] 0 line

-- A word that is too long, cut every `limit` runes; its length is enough fuel.
unfoldable pub cut_word : ℕ → ℕ → Text → Text → List Piece
cut_word zero limit lead word = []
cut_word (suc fuel) limit lead [] = []
cut_word (suc fuel) limit lead (r ∷ rs) =
    record { text = take limit (r ∷ rs); lead = lead }
    ∷ cut_word fuel limit [] (drop limit (r ∷ rs))

-- `flush` of `splitWords`.
unfoldable pub flush_words : Text → ℕ → List Piece
flush_words current runes = if ltb 0 runes then record { text = current; lead = space } ∷ [] else []

-- `separator`, and `current` with the word behind it.
unfoldable pub gap : ℕ → ℕ
gap runes = if ltb 0 runes then 1 else 0

unfoldable pub joined : Text → ℕ → Text → Text
joined current runes w = if ltb 0 runes then current ++ 0x20 ∷ w else current ++ w

-- The loop of `splitWords` over the words, with `current` and `currentRunes`.
unfoldable pub words : ℕ → Text → ℕ → List Text → List Piece
words limit current runes [] = flush_words current runes
words limit current runes (w ∷ ws) = elim (ltb limit (length w)) [
  | true ↦ flush_words current runes ++ (cut_word (length w) limit space w ++ words limit [] 0 ws)
  | false ↦ elim (ltb limit (runes + gap runes + length w)) [
    | true ↦ flush_words current runes ++ words limit w (length w) ws
    | false ↦ words limit (joined current runes w) (runes + gap runes + length w) ws
  ]
]

unfoldable pub split_words : Text → ℕ → List Piece
split_words sentence limit = words limit [] 0 (fields sentence)

unfoldable pub set_lead : Text → List Piece → List Piece
set_lead lead [] = []
set_lead lead (p ∷ ps) = record p { lead = lead } ∷ ps

unfoldable pub sentence_pieces : ℕ → Text → Text → List Piece
sentence_pieces limit lead sentence =
    if leb (length sentence) limit
    then record { text = sentence; lead = lead } ∷ []
    else set_lead lead (split_words sentence limit)

-- The sentences of a line, the first of them with the lead of its line.
unfoldable pub line_pieces : ℕ → Text → List Text → List Piece
line_pieces limit lead [] = []
line_pieces limit lead (s ∷ ss) = sentence_pieces limit lead s ++ line_pieces limit space ss

unfoldable pub lines_pieces : ℕ → Text → List Text → List Piece
lines_pieces limit lead [] = []
lines_pieces limit lead (l ∷ ls) =
    line_pieces limit lead (split_sentences l) ++ lines_pieces limit newline ls

unfoldable pub split_oversized : Text → ℕ → List Piece
split_oversized paragraph limit = lines_pieces limit [] (split 0xa paragraph)

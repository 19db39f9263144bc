-- ===== src/Parser/Normal.antt =====
-- internal/parser/content.go: a text that is normalized stays as it is.
use project_arachne.Prelude.{
  ◌≡◌, refl, sym, ap, ◌∙◌, inl, inr, List, [], ◌∷◌, ◌++◌, append_assoc, append-nil, true,
  if◌then◌else◌, arith, All, All-append, nat_eq, Bool-cases, Text, codes,
}
use project_arachne.Strings.{is_empty, split_by, split, fields, join}
use project_arachne.Strings.Splitting.{AllFail, split_by-append, split-join}
use project_arachne.Parser.Clean.{is_newline, IsLine, normalized-IsLine, IsBlock, rendered}
use project_arachne.Parser.Blocks.{normalize_whitespace, flush, paragraphs_of, normalize_blocks}

flush_blocks :
    (lines : List Text)
    → All IsLine lines
    → (bs : List (List Text)) × All IsBlock bs × (flush lines ≡ rendered bs)
unfolding flush
flush_blocks [] h = ([], tt, refl)
flush_blocks (l ∷ lines) h = ((l ∷ lines) ∷ [], (h, tt), refl)

rendered-append : (bs cs : List (List Text)) → rendered (bs ++ cs) ≡ rendered bs ++ rendered cs
rendered-append [] cs = refl
rendered-append (b ∷ bs) cs = ap (◌∷◌ (join (codes "\n") b)) (rendered-append bs cs)

-- What the loop returns are blocks of lines.
paragraphs_of_blocks :
    (lines raws : List Text)
    → All IsLine lines
    → (bs : List (List Text)) × All IsBlock bs × (paragraphs_of lines raws ≡ rendered bs)
unfolding paragraphs_of
paragraphs_of_blocks lines [] h = flush_blocks lines h
paragraphs_of_blocks lines (raw ∷ rest) h =
    elim (Bool-cases (is_empty (normalize_whitespace raw))) [
      | inl blank ↦
          let (bs, ok, e) = flush_blocks lines h in
          let (cs, ok', e') = paragraphs_of_blocks [] rest tt in
          rw (blank, paragraphs_of)
            (
              bs ++ cs,
              All-append IsBlock bs cs ok ok',
              ap (λ xs. xs ++ paragraphs_of [] rest) e
                  ∙ (ap (λ xs. rendered bs ++ xs) e' ∙ sym (rendered-append bs cs)),
            )
      | inr full ↦
          rw (full, paragraphs_of)
            (paragraphs_of_blocks (lines ++ normalize_whitespace raw ∷ []) rest (
              All-append IsLine lines (normalize_whitespace raw ∷ []) h
                (normalized-IsLine raw full, tt)))
    ]

-- The lines of blocks, with a blank one between two of them.
unfoldable spaced : List (List Text) → List Text
spaced [] = [] ∷ []
spaced (b ∷ []) = b
spaced (b ∷ c ∷ bs) = b ++ [] ∷ spaced (c ∷ bs)

lines-AllFail : (b : List Text) → All IsLine b → AllFail is_newline b
lines-AllFail [] h = tt
lines-AllFail (l ∷ b) (line, h) = (line.2, lines-AllFail b h)

split-block :
    (b : List Text) (s : Text)
    → IsBlock b
    → split b'\n' (join (codes "\n") b ++ b'\n' ∷ s) ≡ b ++ split b'\n' s
unfolding join split
split-block [] s h = absurd h
split-block (l ∷ []) s h = split_by-append is_newline l s b'\n' h.0.2 refl
split-block (l ∷ m ∷ b) s h =
    ap (split_by is_newline) (append_assoc l (b'\n' ∷ join (codes "\n") (m ∷ b)) (b'\n' ∷ s))
    ∙ (split_by-append is_newline l (join (codes "\n") (m ∷ b) ++ b'\n' ∷ s) b'\n' h.0.2 refl
        ∙ ap (◌∷◌ l) (split-block (m ∷ b) s h.1))

split-rendered :
    (bs : List (List Text))
    → All IsBlock bs
    → split b'\n' (join (codes "\n\n") (rendered bs)) ≡ spaced bs
unfolding join spaced split split_by
split-rendered [] h = refl
split-rendered ([] ∷ []) h = absurd h.0
split-rendered ((l ∷ b) ∷ []) h = split-join b'\n' l b (lines-AllFail (l ∷ b) h.0)
split-rendered (b ∷ c ∷ bs) h =
    split-block b (b'\n' ∷ join (codes "\n\n") (rendered (c ∷ bs))) h.0
    ∙ ap (λ xs. b ++ xs)
        (split_by-append is_newline [] (join (codes "\n\n") (rendered (c ∷ bs))) b'\n' tt refl
          ∙ ap (◌∷◌ []) (split-rendered (c ∷ bs) h.1))

blank : is_empty (normalize_whitespace []) ≡ true
unfolding normalize_whitespace fields split_by join is_empty
blank = refl

paragraphs_of-lines :
    (b lines rest : List Text)
    → All IsLine b
    → paragraphs_of lines (b ++ rest) ≡ paragraphs_of (lines ++ b) rest
unfolding paragraphs_of
paragraphs_of-lines [] lines rest h = ap (λ ls. paragraphs_of ls rest) (sym (append-nil lines))
paragraphs_of-lines (l ∷ b) lines rest ((same, full, line), h) =
    rw (same, full, paragraphs_of)
      (paragraphs_of-lines b (lines ++ l ∷ []) rest h
        ∙ ap (λ ls. paragraphs_of ls rest) (append_assoc lines (l ∷ []) b))

flush-block : (b : List Text) → IsBlock b → flush b ≡ join (codes "\n") b ∷ []
unfolding flush
flush-block [] h = absurd h
flush-block (l ∷ b) h = refl

paragraphs_of-blank :
    (b rest : List Text)
    → IsBlock b
    → paragraphs_of b ([] ∷ rest) ≡ join (codes "\n") b ∷ paragraphs_of [] rest
unfolding paragraphs_of
paragraphs_of-blank b rest h =
    ap
      (λ t.
        if t
        then flush b ++ paragraphs_of [] rest
        else paragraphs_of (b ++ normalize_whitespace [] ∷ []) rest)
      blank
    ∙ ap (λ xs. xs ++ paragraphs_of [] rest) (flush-block b h)

block_lines : (b : List Text) → IsBlock b → All IsLine b
block_lines [] h = absurd h
block_lines (l ∷ b) h = h

paragraphs_of-spaced :
    (bs : List (List Text)) → All IsBlock bs → paragraphs_of [] (spaced bs) ≡ rendered bs
unfolding spaced paragraphs_of flush
paragraphs_of-spaced [] h = ground (arith, blank)
paragraphs_of-spaced (b ∷ []) h =
    ap (paragraphs_of []) (sym (append-nil b))
    ∙ (paragraphs_of-lines b [] [] (block_lines b h.0) ∙ flush-block b h.0)
paragraphs_of-spaced (b ∷ c ∷ bs) h =
    paragraphs_of-lines b [] ([] ∷ spaced (c ∷ bs)) (block_lines b h.0)
    ∙ (paragraphs_of-blank b (spaced (c ∷ bs)) h.0
        ∙ ap (◌∷◌ (join (codes "\n") b)) (paragraphs_of-spaced (c ∷ bs) h.1))

-- A text that is normalized is in its normal form: to normalize it again changes nothing.
pub normalize_blocks_twice : (s : Text) → normalize_blocks (normalize_blocks s) ≡ normalize_blocks s
unfolding normalize_blocks
normalize_blocks_twice s =
    let (bs, ok, e) = paragraphs_of_blocks [] (split b'\n' s) tt in
    ap (join (codes "\n\n")) (
      ap (λ ps. paragraphs_of [] (split b'\n' (join (codes "\n\n") ps))) e
      ∙ (ap (paragraphs_of []) (split-rendered bs ok) ∙ (paragraphs_of-spaced bs ok ∙ sym e)))

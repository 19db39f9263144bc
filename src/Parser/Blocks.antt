-- ===== src/Parser/Blocks.antt =====
-- internal/parser/content.go: the text of a page in paragraphs, and its title.
use project_arachne.Prelude.{ℕ, List, [], ◌∷◌, ◌++◌, leb, if◌then◌else◌, length, take, Text, codes}
use project_arachne.Strings.{is_empty, trim_space, split, fields, join}

unfoldable pub normalize_whitespace : Text → Text
normalize_whitespace s = join (codes " ") (fields s)

-- The closure `flush`: the paragraph of the lines, if there are any.
unfoldable pub flush : List Text → List Text
flush [] = []
flush (l ∷ lines) = join (codes "\n") (l ∷ lines) ∷ []

-- The loop over the lines; `lines` are those of the paragraph that is not yet flushed.
unfoldable pub paragraphs_of : List Text → List Text → List Text
paragraphs_of lines [] = flush lines
paragraphs_of lines (raw ∷ rest) =
    let line = normalize_whitespace raw in
    if is_empty line
    then flush lines ++ paragraphs_of [] rest
    else paragraphs_of (lines ++ line ∷ []) rest

unfoldable pub normalize_blocks : Text → Text
normalize_blocks s = join (codes "\n\n") (paragraphs_of [] (split b'\n' s))

abbrev pub max_title_runes : ℕ
max_title_runes = 512

unfoldable pub cap_title : Text → Text
cap_title title =
    if leb (length title) max_title_runes then title else trim_space (take max_title_runes title)

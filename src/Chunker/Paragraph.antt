-- ===== src/Chunker/Paragraph.antt =====
-- internal/chunker/chunker_paragraph.go: packing paragraphs into chunks. SHA-256 in hexadecimal is
-- the parameter `digest`.
use project_arachne.Prelude.{
  ℕ, suc, ◌+◌, ◌/◌, List, [], ◌∷◌, ◌++◌, Bool, true, false, not, ◌&&◌, ◌||◌, Option, none, some,
  ltb, leb, if◌then◌else◌, ◌==◌, nat_eq, list_eq, is_seen, length, take, last?, Text,
}
use project_arachne.Documents.{Document}
use project_arachne.Strings.{is_empty}
use project_arachne.Chunker.Split.{Piece, split_paragraphs, split_oversized}

pub record Settings : Type 0 where
  pub max_runes : ℕ
  pub overlap_runes : ℕ
  pub min_document_runes : ℕ

pub record TextUnit : Type 0 where
  pub text : Text
  pub runes : ℕ
  pub paragraph : ℕ
  pub lead : Text
  pub first : Bool
  pub paragraph_runes : ℕ

pub record Chunk : Type 0 where
  pub id : Text
  pub url : Text
  pub title : Text
  pub ordinal : ℕ
  pub text : Text

-- The tests for negative numbers are void here.
unfoldable pub new_paragraph_chunker : Settings → Option Settings
new_paragraph_chunker s =
    if leb s.max_runes 0 || leb s.max_runes s.overlap_runes then none else some s

abbrev pub paragraph_separator : Text
paragraph_separator = 0xa ∷ 0xa ∷ []

unfoldable pub separator : TextUnit → TextUnit → Text
separator prev next = if prev.paragraph == next.paragraph then next.lead else paragraph_separator

unfoldable pub separator_runes : TextUnit → TextUnit → ℕ
separator_runes prev next = if prev.paragraph == next.paragraph then length next.lead else 2

-- `render` behind its first unit, and `measure` likewise.
unfoldable pub render_after : TextUnit → List TextUnit → Text
render_after prev [] = []
render_after prev (u ∷ us) = separator prev u ++ (u.text ++ render_after u us)

unfoldable pub render : List TextUnit → Text
render [] = []
render (u ∷ us) = u.text ++ render_after u us

unfoldable pub measure_after : TextUnit → List TextUnit → ℕ
measure_after prev [] = 0
measure_after prev (u ∷ us) = separator_runes prev u + (u.runes + measure_after u us)

unfoldable pub measure : List TextUnit → ℕ
measure [] = 0
measure (u ∷ us) = u.runes + measure_after u us

-- `overlap`'s loop, from the last unit to the front: the tail so far with its cost, and whether the
-- loop broke off.
pub record Tail : Type 0 where
  pub units : List TextUnit
  pub total : ℕ
  pub stopped : Bool

unfoldable pub cost_before : TextUnit → List TextUnit → ℕ
cost_before u [] = u.runes
cost_before u (next ∷ rest) = u.runes + separator_runes u next

unfoldable pub extend : ℕ → TextUnit → Tail → Tail
extend limit u t =
    if t.stopped || ltb limit (t.total + cost_before u t.units)
    then record t { stopped = true }
    else record { units = u ∷ t.units; total = t.total + cost_before u t.units; stopped = false }

unfoldable pub tail_within : ℕ → List TextUnit → Tail
tail_within limit [] = record { units = []; total = 0; stopped = false }
tail_within limit (u ∷ us) = extend limit u (tail_within limit us)

unfoldable pub overlap : Settings → List TextUnit → List TextUnit
overlap s [] = []
overlap s (u ∷ []) = []
overlap s (u ∷ v ∷ us) =
    if leb s.overlap_runes 0 then [] else (tail_within s.overlap_runes (v ∷ us)).units

-- `current` with `currentRunes`.
pub record Open : Type 0 where
  pub units : List TextUnit
  pub runes : ℕ

abbrev pub nothing_open : Open
nothing_open = record { units = []; runes = 0 }

-- The separator between what is open and the next unit, if anything is open.
unfoldable pub joint : List TextUnit → TextUnit → ℕ
joint current u = elim (last? current) [ none ↦ 0 | some last ↦ separator_runes last u ]

-- `current` behind a closed chunk: its overlap, unless the unit does not fit behind that.
unfoldable pub keep_if_fits : Settings → TextUnit → List TextUnit → Open
keep_if_fits s u [] = nothing_open
keep_if_fits s u (v ∷ vs) =
    if ltb s.max_runes (measure (v ∷ vs) + joint (v ∷ vs) u + u.runes)
    then nothing_open
    else record { units = v ∷ vs; runes = measure (v ∷ vs) }

unfoldable pub reopened : Settings → TextUnit → List TextUnit → Open
reopened s u closed = keep_if_fits s u (overlap s closed)

-- Whether a chunk is closed in front of the unit.
unfoldable pub must_close : Settings → TextUnit → Open → Bool
must_close s u o =
    let fits = leb (o.runes + joint o.units u + u.runes) s.max_runes in
    let paragraph_would_spill = u.first && ltb s.max_runes (o.runes + 2 + u.paragraph_runes) in
    not fits || (paragraph_would_spill && leb (s.max_runes / 2) o.runes)

abbrev pub append : Open → TextUnit → Open
append o u = record { units = o.units ++ u ∷ []; runes = o.runes + joint o.units u + u.runes }

unfoldable pub last_text : List TextUnit → List Text
last_text [] = []
last_text (u ∷ us) = render (u ∷ us) ∷ []

-- The loop of `pack`.
unfoldable pub pack_from : Settings → Open → List TextUnit → List Text
pack_from s o [] = last_text o.units
pack_from s o (u ∷ us) = elim o.units [
  | [] ↦ pack_from s (append o u) us
  | v ∷ vs ↦ elim (must_close s u o) [
    | true ↦ render o.units ∷ pack_from s (append (reopened s u o.units) u) us
    | false ↦ pack_from s (append o u) us
  ]
]

unfoldable pub pack : Settings → List TextUnit → List Text
pack s us = pack_from s nothing_open us

unfoldable pub piece_units : ℕ → List Piece → List TextUnit
piece_units i [] = []
piece_units i (p ∷ ps) =
    record {
      text = p.text;
      runes = length p.text;
      paragraph = i;
      lead = p.lead;
      first = false;
      paragraph_runes = 0;
    }
    ∷ piece_units i ps

unfoldable pub mark_first : ℕ → List TextUnit → List TextUnit
mark_first runes [] = []
mark_first runes (u ∷ us) = record u { first = true; lead = []; paragraph_runes = runes } ∷ us

unfoldable pub paragraph_units : Settings → ℕ → Text → List TextUnit
paragraph_units s i paragraph =
    if leb (length paragraph) s.max_runes
    then record {
      text = paragraph;
      runes = length paragraph;
      paragraph = i;
      lead = [];
      first = true;
      paragraph_runes = length paragraph;
    }
      ∷ []
    else mark_first (length paragraph) (piece_units i (split_oversized paragraph s.max_runes))

-- `units`, from the i-th paragraph on.
unfoldable pub units_from : Settings → ℕ → List Text → List TextUnit
units_from s i [] = []
units_from s i (p ∷ ps) = paragraph_units s i p ++ units_from s (suc i) ps

unfoldable pub content_runes : List Text → ℕ
content_runes [] = 0
content_runes (p ∷ ps) = length p + content_runes ps

unfoldable pub embedding_text : Text → Text → Text
embedding_text title text = if is_empty title then text else title ++ (paragraph_separator ++ text)

unfoldable pub chunk_id : (Text → Text) → Text → Text → Text
chunk_id digest url text = take 32 (digest (url ++ 0 ∷ text))

-- The loop of `Chunk`: `seen`, and how many chunks there are.
unfoldable pub number_from : (Text → Text) → Document → List Text → ℕ → List Text → List Chunk
number_from digest doc seen n [] = []
number_from digest doc seen n (text ∷ texts) =
    let id = chunk_id digest doc.url (embedding_text doc.title text) in
    elim (is_seen id seen) [
      | true ↦ number_from digest doc seen n texts
      | false ↦
          record { id = id; url = doc.url; title = doc.title; ordinal = n; text = text }
          ∷ number_from digest doc (id ∷ seen) (suc n) texts
    ]

unfoldable pub chunk_document : (Text → Text) → Settings → Document → List Chunk
chunk_document digest s doc =
    let paragraphs = split_paragraphs doc.content in
    if leb (length paragraphs) 0 || ltb (content_runes paragraphs) s.min_document_runes
    then []
    else number_from digest doc [] 0 (pack s (units_from s 0 paragraphs))

unfoldable pub chunk : (Text → Text) → Settings → Option Document → List Chunk
chunk digest s none = []
chunk digest s (some doc) = chunk_document digest s doc

-- ===== src/Tests/Chunks.antt =====
-- Runs of the chunker.
use project_arachne.Prelude.{◌≤◌, List, [], ◌∷◌, false, some, length, All, Text, codes}
use project_arachne.Documents.{Document}
use project_arachne.Chunker.Paragraph.{Settings, TextUnit, chunk, pack, units_from}
use project_arachne.Chunker.Packing.{IsShort, pack-IsShort}
use project_arachne.Chunker.Numbering.{CountFrom, NewIds, chunk-CountFrom}

abbrev small : Settings
small = record { max_runes = 12; overlap_runes = 5; min_document_runes = 3 }

abbrev page : Document
page = record {
  url = codes "https://e.org/";
  title = codes "T";
  content = codes "  one  \n\n\n two a\n two b \n\n\t\nthree and a word";
  content_type = [];
  run_id = [];
}

-- Three units of one chunk, of which the last fits the overlap.
abbrev short_unit : Text → TextUnit
short_unit t = record {
  text = t;
  runes = length t;
  paragraph = 0;
  lead = codes " ";
  first = false;
  paragraph_runes = 0;
}

abbrev after_first : List TextUnit
after_first = short_unit (codes "two") ∷ short_unit (codes "four") ∷ []

abbrev paragraphs : List Text
paragraphs = codes "one" ∷ codes "two a\ntwo b" ∷ codes "three and a word" ∷ []

pack-IsShort_example : All (IsShort small) (pack small (units_from small 0 paragraphs))
pack-IsShort_example = pack-IsShort small paragraphs

chunk-CountFrom_example :
    let chunks = chunk (λ t. t) small (some page) in
    All (λ c. length c.text ≤ 12) chunks × CountFrom 0 chunks × NewIds [] chunks
chunk-CountFrom_example = chunk-CountFrom (λ t. t) small page

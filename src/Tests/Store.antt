-- ===== src/Tests/Store.antt =====
-- Examples for the vector store, with a list of rows in place of Milvus.
use project_arachne.Prelude.{
  ◌<◌, ℕ, ◌≡◌, ◌≢◌, refl, ap, subst, inl, inr, ◌⊎◌, List, [], ◌∷◌, ◌++◌, map, Bool, true, false,
  Option, none, some, some-injective, if◌then◌else◌, arith, In, ◌==◌, ==_iff, is_seen, filter,
  Bool-cases, Text, codes, list_eq, nat_eq,
}
use project_arachne.VectorStore.{Row, column, Client, replace, row_ids}
use project_arachne.VectorStore.{
  validate, validate_all, invalid_row, is_hex_id, byte_length, width, all_hex, exceeds, write_rows,
  existing_ids, ids_of, as_existing, read_cells, delete_stale, in_batches, upsert_batch,
  after_write, stale_ids, all_hex_ids, delete_batch,
}
use project_arachne.Strings.{is_empty}
use project_arachne.VectorStore.Replacing.{Replaced, IsSafe, replace-Replaced, replace-IsSafe}
use project_arachne.VectorStore.Opening.{
  Field, Admin, HasDense, IsOpen, new_milvus, ensure_collection, load_collection, created,
  new_milvus-IsOpen,
}
use project_arachne.Urlnorm.{NetUrl}
use project_arachne.Documents.{Document}
use project_arachne.Chunker.Paragraph.{Settings, chunk}
use project_arachne.Chunker.Numbering.{chunk-CountFrom}
use project_arachne.Embedding.{Response, answer, at_index, embed}
use project_arachne.Indexing.{Batch}
use project_arachne.Indexing.Vectors.{panicked, replaced, submit_batch}
use project_arachne.Indexing.Stored.{IsIndexed, submit_batch-chunk}
use project_arachne.VectorStore.Rows.{ClientLaws, OneRow, In-filter}

abbrev find : Text → List (Row ℕ) → Option (Row ℕ)
find id [] = none
find id (r ∷ rows) = let rest = find id rows in if r.id == id then some r else rest

abbrev is_of : Text → Option (Row ℕ) → Bool
is_of url none = false
is_of url (some r) = r.url == url

abbrev without : List Text → List (Row ℕ) → List (Row ℕ)
without ids [] = []
without ids (r ∷ rows) = let rest = without ids rows in if is_seen r.id ids then rest else r ∷ rest

abbrev cells : List Text → List (Option Text)
cells = map some

abbrev toy : Client (List (Row ℕ)) ℕ
toy = record {
  query = λ url s. column (cells (filter (λ id. is_of url (find id s)) (row_ids s)));
  upsert = λ rows s. (true, rows ++ s);
  delete = λ ids s. (true, without ids s);
}

abbrev stored : List (Row ℕ) → Text → Option (Row ℕ)
stored s id = find id s

find-keyed : (s : List (Row ℕ)) (id : Text) (r : Row ℕ) → find id s ≡ some r → r.id ≡ id
find-keyed [] id r h = absurd (ground arith)
find-keyed (q ∷ s) id r h = ground (arith, ==_iff q.id id, find-keyed s id r)

In-cells :
    (id : Text) (ids : List Text)
    → (In (some id) (cells ids) → In id ids) × (In id ids → In (some id) (cells ids))
In-cells id [] = (λ b. absurd b, λ b. absurd b)
In-cells id (i ∷ ids) =
    let (to, from) = In-cells id ids in
    (
      λ h. elim h [ inl e ↦ inl (some-injective e) | inr later ↦ inr (to later) ],
      λ h. elim h [ inl e ↦ inl (ap some e) | inr later ↦ inr (from later) ],
    )

find-In : (id : Text) (s : List (Row ℕ)) (r : Row ℕ) → find id s ≡ some r → In id (row_ids s)
unfolding row_ids
find-In id [] r h = absurd (ground arith)
find-In id (q ∷ s) r h = ground (arith, ==_iff q.id id, find-In id s r)

is_of_lem :
    (url : Text) (o : Option (Row ℕ))
    → is_of url o ≡ true
    → (r : Row ℕ) × (o ≡ some r) × (r.url ≡ url)
is_of_lem url none h = absurd (ground arith)
is_of_lem url (some r) h = (r, refl, (==_iff r.url url).0 h)

find-append :
    (id : Text) (rows s : List (Row ℕ))
    → (find id (rows ++ s) ≡ find id s)
      ⊎ ((q : Row ℕ) × In q rows × (q.id ≡ id) × (find id (rows ++ s) ≡ some q))
find-append id [] s = inl refl
find-append id (r ∷ rows) s = elim (Bool-cases (r.id == id)) [
  | inl e ↦ inr (r, inl refl, (==_iff r.id id).0 e, ground arith)
  | inr e ↦ elim (find-append id rows s) [
    | inl same ↦ inl (ground arith)
    | inr (q, there, keyed, at) ↦ inr (q, inr there, keyed, ground arith)
  ]
]

find-upserted :
    (rows s : List (Row ℕ)) (r : Row ℕ)
    → In r rows
    → (q : Row ℕ) × In q rows × (q.id ≡ r.id) × (find r.id (rows ++ s) ≡ some q)
find-upserted [] s r h = absurd h
find-upserted (p ∷ rows) s r h = elim (Bool-cases (p.id == r.id)) [
  | inl e ↦ (p, inl refl, (==_iff p.id r.id).0 e, ground arith)
  | inr e ↦ elim h [
    | inl same ↦ absurd (ground (arith, ap (λ t. t.id) same, ==_iff p.id r.id))
    | inr later ↦
        let (q, there, keyed, at) = find-upserted rows s r later in
        (q, inr there, keyed, ground arith)
  ]
]

In-is_seen :
    (id : Text) (ids : List Text)
    → (is_seen id ids ≡ true → In id ids) × (In id ids → is_seen id ids ≡ true)
In-is_seen id [] = (λ h. absurd (ground arith), λ b. absurd b)
In-is_seen id (i ∷ ids) =
    (ground (arith, ==_iff i id, In-is_seen id ids), ground (arith, ==_iff i id, In-is_seen id ids))

find-without :
    (ids : List Text) (s : List (Row ℕ)) (id : Text)
    → find id (without ids s) ≡ (if is_seen id ids then none else find id s)
find-without ids [] id = ground arith
find-without ids (r ∷ s) id =
    ground (arith, find-without ids s id, ==_iff r.id id, ap (λ i. is_seen i ids))

abbrev page_ids : Text → List (Row ℕ) → List Text
page_ids url s = filter (λ id. is_of url (find id s)) (row_ids s)

page_ids-In :
    (url : Text) (s : List (Row ℕ)) (id : Text)
    → (In (some id) (cells (page_ids url s)) → (r : Row ℕ) × (find id s ≡ some r) × (r.url ≡ url))
      × ((r : Row ℕ) → find id s ≡ some r → r.url ≡ url → In (some id) (cells (page_ids url s)))
page_ids-In url s id =
    let (to, from) = In-cells id (page_ids url s) in
    let (filtered, kept) = In-filter (λ i. is_of url (find i s)) id (row_ids s) in
    (
      λ h. is_of_lem url (find id s) (filtered (to h)).1,
      λ r at of. from (kept (find-In id s r at, ground (arith, ==_iff r.url url))),
    )

column-injective : (xs ys : List (Option Text)) → column xs ≡ column ys → xs ≡ ys
column-injective xs ys h = ground arith

delete-find :
    (ids : List Text) (s : List (Row ℕ)) (id : Text)
    → (find id (without ids s) ≡ find id s) ⊎ (In id ids × (find id (without ids s) ≡ none))
delete-find ids s id = elim (Bool-cases (is_seen id ids)) [
  | inl e ↦ inr ((In-is_seen id ids).0 e, ground (arith, find-without ids s id))
  | inr e ↦ inl (ground (arith, find-without ids s id))
]

toy-ClientLaws : ClientLaws toy stored
toy-ClientLaws = record {
  keyed = find-keyed;
  queried = λ url s cs e few id.
      subst
        (λ xs.
          (In (some id) xs → (r : Row ℕ) × (find id s ≡ some r) × (r.url ≡ url))
          × ((r : Row ℕ) → find id s ≡ some r → r.url ≡ url → In (some id) xs))
        (column-injective _ cs e) (page_ids-In url s id);
  queried_none = λ url s id r e at. absurd (ground arith);
  upserts_only = λ rows s id. find-append id rows s;
  upserts_all = λ rows s r done there. find-upserted rows s r there;
  deletes_only = delete-find;
  deletes_all = λ ids s id done there. ground (arith, find-without ids s id, In-is_seen id ids);
}

abbrev row : Text → Text → Row ℕ
row id url = record {
  id = id;
  url = url;
  host = codes "h";
  ordinal = 0;
  title = [];
  text = codes "t";
  content_hash = codes "c";
  run_id = codes "r";
  indexed_at = 5;
  vector = 7 ∷ [];
}

-- The page u has the rows a1 and a2, and the page v has b1.
abbrev before : List (Row ℕ)
before =
    row (codes "a1") (codes "u") ∷ row (codes "b1") (codes "v") ∷ row (codes "a2") (codes "u") ∷ []

-- The page u gets the rows a2 and a3.
abbrev given : List (Row ℕ)
given = row (codes "a2") (codes "u") ∷ row (codes "a3") (codes "u") ∷ []

given-OneRow : OneRow given
given-OneRow q r there here same = ground arith

replace-Replaced_example :
    Replaced toy stored toy-ClientLaws
      (codes "u")
      given
      given-OneRow
      before
      (replace toy 1 (codes "u") given before).1
unfolding replace validate_all validate is_hex_id is_empty byte_length width all_hex exceeds
    write_rows existing_ids ids_of row_ids as_existing read_cells delete_stale in_batches
    upsert_batch after_write stale_ids all_hex_ids delete_batch
replace-Replaced_example =
    replace-Replaced toy stored toy-ClientLaws (codes "u") given given-OneRow before 1 refl

-- One row of the page u has an ID that is not hexadecimal, so it is not deleted.
abbrev odd : List (Row ℕ)
odd = row (codes "zz") (codes "u") ∷ before

replace-IsSafe_example :
    IsSafe toy stored toy-ClientLaws
      (codes "u")
      given
      given-OneRow
      odd
      (replace toy 1 (codes "u") given odd).1
unfolding replace validate_all validate is_hex_id is_empty byte_length width all_hex exceeds
    write_rows existing_ids ids_of row_ids as_existing read_cells delete_stale in_batches
    upsert_batch after_write stale_ids all_hex_ids delete_batch
replace-IsSafe_example =
    replace-IsSafe toy stored toy-ClientLaws (codes "u") given given-OneRow odd 1 invalid_row refl

-- A page with one chunk, whose ID is in hexadecimal.
abbrev settings : Settings
settings = record { max_runes = 12; overlap_runes = 4; min_document_runes = 1 }

abbrev page : Document
page = record {
  url = codes "u";
  title = [];
  content = codes "some text";
  content_type = codes "text/html";
  run_id = codes "r";
}

abbrev digest : Text → Text
digest bytes = codes "a3"

abbrev respond : List Text → ℕ → Response ℕ
respond texts attempt = answer (record { index = at_index 0; embedding = 7 ∷ [] } ∷ [])

-- What net/url says does not matter here.
abbrev toy_net : NetUrl
toy_net = record {
  parse = λ raw. none;
  hostname = λ u. u.host;
  port = λ u. [];
  resolve = λ base ref. base;
  to_string = λ u. u.path;
  to_ascii = λ name. some name;
  lower = λ c. c;
}

abbrev page_batch : Batch
page_batch = record {
  document = page;
  hash = codes "c";
  chunks = chunk digest settings (some page);
}

submit_batch-chunk_example :
    ((submit_batch toy_net toy 1 (embed 2 0 respond) 5 page_batch before).0 ≢ panicked)
    × ((submit_batch toy_net toy 1 (embed 2 0 respond) 5 page_batch before).0 ≡ replaced none
        → IsIndexed toy_net toy stored toy-ClientLaws 1 5 page_batch before
            (chunk-CountFrom digest settings page).2
            (embed 2 0 respond)
            (submit_batch toy_net toy 1 (embed 2 0 respond) 5 page_batch before).1)
submit_batch-chunk_example =
    submit_batch-chunk toy_net toy stored toy-ClientLaws 1 5 before digest settings page (codes "c")
      2 0 respond (omega arith)

-- A server on which a collection is its fields, if it is there.
abbrev server : Admin (Option (List Field))
server = record {
  connects = true;
  has_collection = λ s. elim s [ none ↦ some false | some fields ↦ some true ];
  describe = λ s. s;
  create = λ dimension s. (true, some (record { name = codes "dense"; dim = some dimension } ∷ []));
  load = λ s. true;
}

server-creates :
    (dimension : ℕ) (s : Option (List Field))
    → (server.create dimension s).0 ≡ true
    → (fields : List Field) × (server.describe (server.create dimension s).1 ≡ some fields)
      × HasDense dimension fields
unfolding HasDense
server-creates dimension s h =
    (record { name = codes "dense"; dim = some dimension } ∷ [], refl, refl)

new_milvus-IsOpen_example :
    (0 < 1024)
    × IsOpen server server-creates 1024
        (new_milvus server (codes "m:1") (codes "pages") 1024 none).1
unfolding new_milvus ensure_collection load_collection created is_empty
new_milvus-IsOpen_example =
    new_milvus-IsOpen server server-creates (codes "m:1") (codes "pages") 1024 none refl

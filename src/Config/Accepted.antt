-- ===== src/Config/Accepted.antt =====
-- internal/appconfig/config.go: the components accept what `Validate` accepts.
use project_arachne.Prelude.{
  ℕ, zero, suc, ◌≡◌, ◌≢◌, refl, inl, inr, List, [], ◌∷◌, Bool, true, false, none, some, arith, All,
  nat_eq, list_eq, Bool-cases, Text,
}
use project_arachne.Strings.{is_empty}
use project_arachne.PageParser.Urls.{trim_right_by}
use project_arachne.VectorStore.Opening.{collection_name}
use project_arachne.Config.Made.{is_slash, new_open_ai_client, new_retriever}
use project_arachne.RunStates.{Counter, pos, negsuc, at_least}
use project_arachne.Chunker.Paragraph.{Settings, new_paragraph_chunker}
use project_arachne.Config.{
  Config, ConfigError, is_less, all_positive, positive, durations, is_collection_prefix, checks,
  first_error, validate,
}

first_error-none :
    (tests : List (Bool × ConfigError)) → first_error tests ≡ none → All (λ t. t.0 ≡ false) tests
unfolding first_error
first_error-none [] h = tt
first_error-none ((failed, e) ∷ rest) h = elim (Bool-cases failed) [
  | inl bad ↦ absurd (ground arith)
  | inr good ↦ (good, first_error-none rest (ground arith))
]

all_positive-All :
    (values : List Counter) → all_positive values ≡ true → All (λ v. at_least 1 v ≡ true) values
unfolding all_positive
all_positive-All [] h = tt
all_positive-All (v ∷ values) h = elim (Bool-cases (at_least 1 v)) [
  | inl e ↦ (e, all_positive-All values (ground arith))
  | inr e ↦ absurd (ground arith)
]

natural : (v : Counter) → is_less v (pos 0) ≡ false → (n : ℕ) × (v ≡ pos n)
unfolding is_less
natural (pos n) h = (n, refl)
natural (negsuc n) h = absurd (ground arith)

is_positive-natural : (v : Counter) → at_least 1 v ≡ true → (n : ℕ) × (v ≡ pos (suc n))
is_positive-natural (pos zero) h = absurd (ground arith)
is_positive-natural (pos (suc n)) h = (n, refl)
is_positive-natural (negsuc n) h = absurd (ground arith)

-- The chunker, the embedding client and the retriever can be made of the configuration, and the
-- collection of the vector store gets a name.
pub record IsUsable (c : Config) : Type 0 where
  pub settings : Settings
  pub max_runes : c.max_runes ≡ pos settings.max_runes
  pub overlap_runes : c.overlap_runes ≡ pos settings.overlap_runes
  pub min_document_runes : c.min_document_runes ≡ pos settings.min_document_runes
  pub chunker : new_paragraph_chunker settings ≡ some settings
  pub client :
      (base_url : Text)
      → base_url ≢ []
      → new_open_ai_client base_url c ≡ some (trim_right_by is_slash base_url)
  pub retriever : new_retriever true true c ≡ true
  pub collection :
      (lower : ℕ → ℕ) (print : ℕ → Text) (dimension : ℕ)
      → collection_name lower print c.collection_prefix c.model dimension ≢ []

named_collection :
    (lower : ℕ → ℕ) (print : ℕ → Text) (prefix model : Text) (dimension : ℕ)
    → is_collection_prefix prefix ≡ true
    → collection_name lower print prefix model dimension ≢ []
unfolding is_collection_prefix collection_name
named_collection lower print [] model dimension h = absurd (ground arith)
named_collection lower print (c ∷ s) model dimension h = λ e. cc

filled : (s : Text) → s ≢ [] → is_empty s ≡ false
unfolding is_empty
filled [] h = absurd (h refl)
filled (c ∷ s) h = refl

client_made :
    (base_url : Text) (c : Config)
    → base_url ≢ []
    → is_empty c.model ≡ false
    → at_least 1 c.batch_size ≡ true
    → is_less c.dimensions (pos 0) ≡ false
    → is_less c.max_retries (pos 0) ≡ false
    → at_least 1 c.embedding_timeout ≡ true
    → new_open_ai_client base_url c ≡ some (trim_right_by is_slash base_url)
unfolding new_open_ai_client
client_made base_url c url model batch sizes retries timeout =
    rw (filled base_url url, model, batch) (rw (sizes, retries, timeout) refl)

chunker_made :
    (m o d : ℕ)
    → is_less (pos o) (pos (suc m)) ≡ true
    → new_paragraph_chunker
        (record { max_runes = suc m; overlap_runes = o; min_document_runes = d })
      ≡ some (record { max_runes = suc m; overlap_runes = o; min_document_runes = d })
unfolding new_paragraph_chunker is_less
chunker_made m o d h = ground arith

-- Of a configuration that `Validate` accepts, the chunker and the retriever can be made, the embedding
-- client can be made for every base URL that is not empty, and the name of the collection is not
-- empty, whatever the dimension of the vectors.
pub validate-IsUsable : (c : Config) → validate c ≡ none → IsUsable c
unfolding validate checks positive durations
validate-IsUsable c h =
    let (
      numbers,
      (
        times,
        (
          agent,
          (
            named,
            (
              engine,
              (
                large,
                (
                  model,
                  (
                    sizes,
                    (
                      retries,
                      (prefix, (overlap, (least, (limits, (listen, (memory, (timeouts, end))))))),
                    ),
                  ),
                ),
              ),
            ),
          ),
        ),
      ),
    ) =
      first_error-none (checks c) h in
    let (
      tasks,
      (
        runs,
        (savers, (runes, (batch, (workers, (queue, (channel, (candidates, (rrf, others)))))))),
      ),
    ) =
      all_positive-All (positive c) (ground arith) in
    let (saver, (fetch, (page, (robots, (hash, (timeout, other_times)))))) =
      all_positive-All (durations c) (ground arith) in
    let (m, is_m) = is_positive-natural c.max_runes runes in
    let (o, is_o) = natural c.overlap_runes (ground arith) in
    let (d, is_d) = natural c.min_document_runes least in
    record {
      settings = record { max_runes = suc m; overlap_runes = o; min_document_runes = d };
      max_runes = is_m;
      overlap_runes = is_o;
      min_document_runes = is_d;
      chunker = chunker_made m o d (ground arith);
      client = λ base_url url.
          client_made base_url c url (ground arith) batch sizes retries (ground arith);
      retriever = unfold new_retriever in rw (candidates, rrf) refl;
      collection = λ lower print dimension.
          named_collection lower print c.collection_prefix c.model dimension (ground arith);
    }

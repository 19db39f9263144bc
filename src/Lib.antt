-- ===== src/Lib.antt =====
-- Verification of the distributed web crawler.
--
-- Nodes share Kafka (queues of runs and of tasks) and Redis (run states, caches). A node takes a
-- task from the queue, asks Redis whether it is still to be done, fetches and parses its page, admits
-- and queues a task for every link of it, counts the task down, and acknowledges its message; the
-- queue commits offsets of acknowledged messages only. Pages are cut into chunks, which are embedded
-- and stored for the search.
--
-- The files and the code they model:
--   Prelude, Strings    shared tests, lists, maps and Go strings (code points for runes)
--   Domain              internal/domain/config: runs, tasks, task IDs, acknowledgement
--   Urlnorm             internal/urlnorm/urlnorm.go: canonical URLs
--   Queue.Offsets       internal/processor/queue/offsets.go: the commit points of a consumer
--   Queue.Commit        internal/processor/queue/kafka_queue.go: the committer and the rebalances
--   Queue.Producer      internal/processor/queue/kafka_queue.go: runProducer
--   RunStates           internal/webcrawler/runstates: the Lua scripts, each one atomic step
--   Processor           internal/processor/processor_queue.go: SendTask and the task consumer
--   Crawler             internal/webcrawler/crawler_repo.go: what a worker does with a task
--   Chunker             internal/chunker: Split (split.go) and Paragraph (chunker_paragraph.go)
--   Embedding           internal/embedding/openai.go: batches, retries, decoding
--   Retrieval           internal/retrieval/retrieval.go: pages, their fusion, Search
--   Networker           internal/networker/networker_repo.go: the redirects that rename a page
--   Scraping            internal/webcrawler/crawler_repo.go: fetching, naming and indexing a page
--   Documents, Indexing internal/documents, internal/indexing/sink_chunking.go: hashes and batches
--   PageParser.Script   internal/pageparser/page_parser_basic_javascript.go: the constants of a script
--   PageParser.Calls    the same file: the links of a script
--   PageParser.Urls     internal/pageparser: which texts are URLs (page_parser_basic*.go)
--   PageParser.Trees    internal/parser/scantext.go, and the parsed trees of HTML and JSON
--   PageParser.Pages    internal/pageparser/page_parser_basic_html.go: the links of HTML
--   PageParser.Bodies   internal/pageparser: page_parser_basic_json.go and adapter.go
--   App                 internal/app/app_crawler.go: what becomes of a run's message
--   VectorStore         internal/vectorstore/milvus.go: Replace, on a record of the calls of Milvus
--   VectorStore.Opening internal/vectorstore/milvus.go: opening a collection
--   Indexing.Vectors    internal/indexing/sink_vector.go: the rows of a batch
--   Indexing.Shards     internal/indexing/sink_async.go: the queue in front of the indexing
--   Parser              internal/parser: the kind of a body, and the accumulator of links
--   Parser.Whole        internal/parser: Parse (parser_katana.go, links.go, content.go)
--   Parser.Blocks       internal/parser/content.go: paragraphs and titles
--   Evaluation          internal/evaluation/dataset.go: the checks of a file of judgements
--   Config              internal/appconfig/config.go: Validate
--   Config.Made         the constructors of the embedding client and of the retriever
--   Tests               concrete runs of the theorems
--
-- State is passed explicitly: the store of Redis, the queue, the tracker are values, and a method is
-- a function to its result and the new state. Concurrent nodes are sequences of atomic steps: the
-- calls of the run states, the locked methods of the tracker. What Redis or Kafka answers is an
-- argument, and a call that fails may have been executed or not. Redis's counters are integers;
-- numbers of the code that cannot be negative are natural numbers, and no arithmetic here comes near
-- 64 bits. All loops are structural recursion but those whose fuel is named at their definition.
--
-- Not modelled: logging, metrics, contexts and timeouts, the start and end of goroutines, and the
-- third-party clients. net/url, idna, SHA-256, robots.txt matching, the parsers of HTML, JavaScript,
-- JSON and YAML, katana, readability and Milvus are parameters. The page graph is Cypher text for
-- Neo4j, the caches are calls of Redis, and the commands and the search API are wiring. The walk over
-- a JavaScript tree goes by reflection; what it collects is a record.
pub mod Prelude
pub mod Strings
pub mod Urlnorm
pub mod Domain
pub mod Documents
pub mod Indexing
pub mod Embedding
pub mod Queue
pub mod RunStates
pub mod Processor
pub mod Networker
pub mod Scraping
pub mod Crawler
pub mod Chunker
pub mod Retrieval
pub mod App
pub mod PageParser
pub mod VectorStore
pub mod Parser
pub mod Evaluation
pub mod Config
pub mod Tests

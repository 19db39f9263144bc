-- ===== src/Tests.antt =====
-- Runs of the model at concrete inputs, and the theorems applied to them.
pub mod Offsets
pub mod Producer
pub mod RunStates
pub mod Urls
pub mod Crawl
pub mod Chunks
pub mod Search
pub mod Scraping
pub mod Indexing
pub mod Embedding
pub mod Pages
pub mod Store
pub mod Config
pub mod Evaluation
pub mod Parser
pub mod Shards
pub mod App

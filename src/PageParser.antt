-- ===== src/PageParser.antt =====
-- internal/pageparser: the legacy extractor of links from HTML, JSON and scripts.
pub mod Urls
pub mod Script
pub mod Endless
pub mod Ending
pub mod Calls
pub mod Trees
pub mod Pages
pub mod Bodies
pub mod Kept
pub mod Links
pub mod Whole
pub mod Attributes
pub mod Finishing

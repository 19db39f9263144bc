-- ===== src/Chunker.antt =====
-- internal/chunker: cutting a document into chunks of bounded length.
pub mod Split
pub mod Paragraph
pub mod Pieces
pub mod Packing
pub mod Numbering

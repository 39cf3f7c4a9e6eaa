-- ===== src/Search.antt =====
-- archive/zim/search.go and archive/zim/bm25: the full-text search.
pub mod Index
pub mod Query
pub mod Snippet
pub mod Tokenizer

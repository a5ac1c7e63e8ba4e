-- ===== src/Hnsw.antt =====
-- The export of a CAGRA graph to pgvector's HNSW pages: the parts of src/hnsw_export.c that decide
-- what stands in a page.
pub mod Half
pub mod Neighbours
pub mod Pages

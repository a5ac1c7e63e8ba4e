-- ===== src/Sidecar.antt =====
-- The sidecar files of src/cuvs_util.c, byte by byte: what is written, and what is accepted.
pub mod File
pub mod Tids
pub mod Shards
pub mod Vectors
pub mod Tombstones
pub mod Profile

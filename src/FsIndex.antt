-- ===== src/FsIndex.antt =====
-- firmware/src/fsindex.cpp: the file store's index, its boot scan and its retention policy.
pub mod Table
pub mod Scan
pub mod Retention

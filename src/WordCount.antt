-- ===== src/WordCount.antt =====
-- The two word counters of lab8: wc_mt.c, which gives each thread a slice of the file, and
-- wc_mt_overlap.c, where a producer hands chunks to consumers through a bounded buffer.
pub mod Text
pub mod Mt
pub mod Overlap

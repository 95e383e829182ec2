-- ===== src/LockClassify.antt =====
-- lock_classify.py: the classification of a pair at ingest, and of all pairs again.
pub mod Scrub
pub mod Triples
pub mod Pair

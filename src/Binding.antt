-- ===== src/Binding.antt =====
-- seal_binding.py: the session of a process, which holds the keys of the folders that have been
-- unlocked, and the reads that go through it.
pub mod Wall
pub mod Pairs

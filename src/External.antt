-- ===== src/External.antt =====
-- Code that the repository calls and does not hold: content identifiers, IEEE-754 doubles and the
-- LRU cache. Each is a record of operations with the documented laws that the code relies on.
pub mod CidLib
pub mod Float
pub mod Lru
pub mod Hamt
pub mod BlockStore
pub mod Archive
pub mod Dag
pub mod Crypto
pub mod Grafts

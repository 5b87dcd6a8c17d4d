-- ===== src/Trie.antt =====
-- survival_kit/trie.c: the nodes, the search, the insertion, and the operations of a trie.
pub mod Node
pub mod Find
pub mod Split
pub mod Contents
pub mod Valid
pub mod Shared
pub mod NextNode
pub mod Search
pub mod Chain
pub mod Grow
pub mod Lookup
pub mod Inside
pub mod Api
pub mod WellFormed
pub mod Get
pub mod Set
pub mod RoundTrip
pub mod Iter
pub mod Tests

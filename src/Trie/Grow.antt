-- ===== src/Trie/Grow.antt =====
-- `skit_trie_split_node` of survival_kit/trie.c, at the node where the search of a key that is not in
-- the trie has stopped. `Grow/Grown` says what it makes of the node, and the other children prove it,
-- for one kind of node each and then for all.
pub mod Grown
pub mod Branch
pub mod Table
pub mod Narrow
pub mod Kinds

-- ===== src/Lib.antt =====
-- The C Survival Kit is a library of C utilities: strings, flags, tries, stacks, exceptions,
-- streams and a parsing framework. This development models its core in plain functions and proves
-- what they do.
--
-- The trie (survival_kit/trie.h, survival_kit/trie.c) is the largest part. A `skit_trie` maps
-- byte strings to pointers; its nodes are leaves, narrow nodes of up to twelve characters, multi
-- nodes of up to twelve children and tables of 256. A call of `skit_trie_get` or `skit_trie_set`
-- searches the tree with `skit_trie_find`, which yields coordinates, and `skit_trie_set` then
-- splits the node at which the search has stopped.
--
-- - Common, Common/Tests, Common/Lists, Common/Int: the names and lemmas that all parts share,
--   lists measured by native numbers, and signed integers.
-- - Ascii: the characters of survival_kit/string.h and survival_kit/string.c, and their
--   comparison.
-- - Trie/Node, Trie/Find, Trie/Split, Trie/Api: the definitions. `Node` is `skit_trie_node`;
--   `find` is `skit_trie_find`, `next_node` is `skit_trie_next_node`; `split_node` is
--   `skit_trie_split_node`; `get`, `set` and `remove` are `skit_trie_get`, `skit_trie_set` and
--   `skit_trie_remove`.
-- - Trie/Contents, Trie/Valid, Trie/WellFormed, Trie/Inside: what a tree stands for, the
--   invariants, and the keys that end inside a node.
-- - Trie/Shared, Trie/NextNode, Trie/Search, Trie/Lookup: the search.
-- - Trie/Chain, Trie/Grow and its children: the insertion.
-- - Trie/Get, Trie/Set and its children, Trie/RoundTrip: the operations.
-- - Bag: survival_kit/bag.c, fields registered at run time; Bag/Fields: they do not overlap.
-- - Trie/Iter: the iterator, `iter_new` for `skit_trie_iter_new` and so on. Trie/Iter/Entries:
--   the entries of a tree in order, read off the nodes; Trie/Iter/Listed, Trie/Iter/Routes,
--   Trie/Iter/Members, Trie/Iter/Order: that they are its keys, in order. Trie/Iter/Pending: what
--   an iterator has left to list; Trie/Iter/Scan, Trie/Iter/Passes, Trie/Iter/Next: what a pass and
--   a call of `iter_next` do to it. Trie/Iter/Listing, Trie/Iter/Start, Trie/Iter/Begin,
--   Trie/Iter/New: the listing from a prefix and the frame with which it begins. Trie/Iter/Guard:
--   the guards of set, and Trie/Iter/Tests: runs.
-- - Trie/Tests: runs on small tries, and the theorems at concrete tries.
--
-- Slices (survival_kit/string.h, survival_kit/string.c) are views of the characters of a loaf or
-- of a C string.
--
-- - Slice/Core, Slice/Compare: the definitions, `Slice` for `skit_slice`, `slice_of` for
--   `skit_slice_of`, `partition` for `skit_slice_partition`, `ascii_ccmp` for
--   `skit_slice_ascii_ccmp`, and so on with the prefix left out.
-- - Slice/Loaf, Slice/Case, Slice/Escape: the characters of a loaf, `skit_slice_match_nl`, the
--   change of case and `skit_slice_escapify`, with what they do.
-- - Slice/Bounds, Slice/Trim, Slice/Search, Slice/Partition, Slice/Order: what the rest does, and
--   Slice/Tests: runs.
--
-- The inheritance table (survival_kit/inheritance_table.h, survival_kit/inheritance_table.c)
-- gives the error codes their parents.
--
-- - InheritanceTable/Register: the definitions, `register_parent_child_rel` for
--   `skit_register_parent_child_rel` and `is_a` for `skit_is_a`.
-- - InheritanceTable/Ancestry, InheritanceTable/Invariant, InheritanceTable/Related: what they
--   do, and InheritanceTable/Tests: runs.
--
-- Stacks (survival_kit/templates/stack.c) link nodes that the caller owns; free-list stacks
-- (survival_kit/templates/fstack.c) are two stacks, of used and of unused nodes.
--
-- - Stack/Heap: nodes at addresses and the commands that read and write them. Stack/Core: the
--   definitions, `push` for `stack_push` and so on.
-- - Stack/Chain, Stack/Ends, Stack/Reverse, Stack/Walk, Stack/Copy: lists of nodes, and what the
--   operations do with them; Stack/Tests: runs.
-- - Fstack/Core: the definitions, `alloc` for `fstack_alloc` and so on. Fstack/Nodes,
--   Fstack/Walk, Fstack/Order: what they do, the last against the order that the header file
--   describes, and Fstack/Tests: runs.
--
-- A node owns its children, so nodes form a tree, and a node pointer is the list of child indices
-- that leads to it from the root; a change of `*coords.node` replaces the node at that path.
-- Functions that assert return an option, where `none` is a failed assertion. `coords.pos` is a
-- `uint32_t` and wraps, so the theorems on the search take keys of fewer than 2^32 characters;
-- `trie->length` wraps at 2^64. The loops of the search run on fuel, two rounds more than the key
-- has characters: each round but the last consumes a character. `skit_trie_node_insert_non0_str`
-- runs on one round less than the string has characters, where each round takes twelve. What the
-- allocator leaves in a block is a parameter, `fresh`.
--
-- An iterator (Trie/Iter) keeps frames, the current one first; one call of `skit_trie_iter_next`
-- is a number of passes, of which each returns or calls the function again, on fuel that the work
-- of the frames bounds.
--
-- A slice keeps its block of characters, its offset and its length; the last two are masked to 28
-- bits as `meta` does it, so the theorems take blocks of fewer than 2^28 characters. The block of
-- a loaf is as long as it was asked to be, and the loaf's own length has the low 28 bits of that;
-- the returned-key buffer of a trie is its block, since keys are slices. A trie's iterator count
-- is an `int32_t` and wraps around. A slice that is NULL occurs only where the code compares it.
--
-- The ids of the inheritance table are variables of the caller, so a memory maps addresses to
-- integers. The loop of `skit_is_a` runs on fuel, two rounds more than the rank of the index that
-- it starts from.
--
-- A stack's loops run on fuel, one round more than the stack has nodes; its values have any type.
-- The struct lives outside the heap, so an operation returns its new value. The blocks that an
-- allocator returns are parameters.
--
-- Not modelled: the release of memory and the drawing of tries; text output, streams, sockets,
-- signals and the exception machinery of survival_kit/feature_emulation, whose effect here is an
-- outcome of a call, `thrown` or `died`.
pub mod Common
pub mod Ascii
pub mod Bag
pub mod Fstack
pub mod InheritanceTable
pub mod Slice
pub mod Stack
pub mod Trie

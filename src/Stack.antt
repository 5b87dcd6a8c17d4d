-- ===== src/Stack.antt =====
-- The linked stacks of survival_kit/templates/stack.c and the free-list stacks of
-- survival_kit/templates/fstack.c, over an explicit heap of nodes.
pub mod Heap
pub mod Chain
pub mod Core
pub mod Ends
pub mod Copy
pub mod Reverse
pub mod Walk
pub mod Tests

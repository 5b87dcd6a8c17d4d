-- ===== src/Fstack.antt =====
-- The free-list stacks of survival_kit/templates/fstack.c, which keep popped nodes for later pushes.
pub mod Core
pub mod Nodes
pub mod Walk
pub mod Order
pub mod Tests

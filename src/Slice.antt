-- ===== src/Slice.antt =====
-- The slices of survival_kit/string.h and survival_kit/string.c.
pub mod Core
pub mod Bounds
pub mod Trim
pub mod Search
pub mod Partition
pub mod Compare
pub mod Order
pub mod Case
pub mod Loaf
pub mod Escape
pub mod Tests

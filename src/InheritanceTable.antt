-- ===== src/InheritanceTable.antt =====
-- survival_kit/inheritance_table.h and survival_kit/inheritance_table.c.
pub mod Register
pub mod Invariant
pub mod Related
pub mod Ancestry
pub mod Tests

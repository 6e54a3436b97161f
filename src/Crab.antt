-- ===== src/Crab.antt =====
-- The domains of src/crab: intervals of numbers, and the numeric bytes of the stack.
pub mod Interval
pub mod Bitset

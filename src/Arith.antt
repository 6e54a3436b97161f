-- ===== src/Arith.antt =====
-- The numbers of src/arith, of arbitrary precision (num_big.hpp), with infinities (num_extended.hpp)
-- and of 64 bits (num_safeint.hpp), and linear expressions and constraints.
pub mod CppInt
pub mod Number
pub mod Linear
pub mod SafeInt
pub mod Extended

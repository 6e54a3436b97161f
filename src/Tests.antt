-- ===== src/Tests.antt =====
-- The theorems at concrete inputs.
pub mod Digits
pub mod Intervals
pub mod Programs
pub mod Decoder
pub mod Expressions
pub mod Bytes
pub mod Flow
pub mod Analysis

-- ===== src/Ir.antt =====
-- The instructions, their assertions, their encoding and their decoding, after src/ir.
pub mod Syntax
pub mod Assertions
pub mod Isa
pub mod Program
pub mod CfgBuilder
pub mod Marshal
pub mod Platform
pub mod Unmarshal
pub mod RoundTrip

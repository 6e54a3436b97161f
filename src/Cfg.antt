-- ===== src/Cfg.antt =====
-- The labels, the graph and the weak topological order of src/cfg.
pub mod Label
pub mod Order
pub mod Graph
pub mod Wto

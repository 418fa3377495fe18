-- ===== src/Execute/Numeric.antt =====
-- crates/decode/src/execute/numeric/: the nodes that decode numeric streams.
pub mod Zigzag
pub mod Delta
pub mod Divide
pub mod Repeat
pub mod Convert

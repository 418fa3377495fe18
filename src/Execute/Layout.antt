-- ===== src/Execute/Layout.antt =====
-- crates/decode/src/execute/layout/: the nodes that move bytes.
pub mod FastTranspose
pub mod Transpose
pub mod Concat

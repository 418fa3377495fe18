-- ===== src/Execute.antt =====
-- crates/decode/src/execute/: running a validated plan.
pub mod Streams
pub mod Output
pub mod Elements
pub mod Runtime
pub mod Numeric
pub mod Layout
pub mod Plan
pub mod Slots
pub mod Chunk

-- ===== src/Parse.antt =====
-- crates/decode/src/parse.rs and crates/decode/src/parse/: from the bytes of a frame to its plan.
pub mod Reader
pub mod Packed
pub mod Bitpacked
pub mod Plan
pub mod Header
pub mod Sizes
pub mod ChunkFields
pub mod Single
pub mod Chunk
pub mod Frame
pub mod Checks
pub mod Graph
pub mod Validate
pub mod Entry

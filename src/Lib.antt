-- ===== src/Lib.antt =====
-- ozlrip decodes OpenZL frames. A frame is a header and a sequence of chunks; a chunk is a graph of
-- transform nodes over streams of bytes, some stored in the chunk and the others regenerated by the
-- nodes. The decoder parses a frame into a plan, validates the plan's graphs, turns each chunk into
-- an execution plan and runs it.
--
-- Parts, by file (paths of the repository on the right):
--   Core          crates/core/src/lib.rs and crates/decode/src/arith.rs: errors, limits, checked sums.
--   Info          crates/decode/src/info.rs: the description of a frame that callers get.
--   Varint        crates/decode/src/varint.rs: `read_var_u64`.
--   Standard      crates/decode/src/standard.rs: the table of standard transforms (Standard/Table), their
--                 IDs (Standard/Ids), the index of the table and the check of versions.
--   Parse         crates/decode/src/parse.rs and crates/decode/src/parse: one module for the reader
--                 (Parse/Reader), bit-packed values (Parse/Packed, Parse/Bitpacked), plans (Parse/Plan),
--                 the frame header (Parse/Header, Parse/Sizes), the chunk header (Parse/ChunkFields,
--                 Parse/Single), chunks (Parse/Chunk), the whole frame (Parse/Frame), validation
--                 (Parse/Checks, Parse/Graph, Parse/Validate) and the entry points (Parse/Entry).
--   Execute       crates/decode/src/execute: execution plans of chunks (Execute/Plan, plan.rs), the streams
--                 (Execute/Streams), the output budget (Execute/Output), the pool of byte buffers
--                 (Execute/Runtime), little-endian elements (Execute/Elements), the stream table of a
--                 chunk and its live bytes (Execute/Slots), the loop over a chunk's nodes (Execute/Chunk),
--                 numeric nodes (Execute/Numeric: zigzag, delta, divide_by, range_pack, constant,
--                 dedup_num, conversions), transpose and concat nodes and the lane writers of
--                 fast_transpose.rs (Execute/Layout).
--   Prelude       names, Boolean tests, list lemmas and bit operations that the others share.
--   Tests         runs of the definitions, and the theorems at concrete inputs.
-- Functions keep the names of the source. The modules below a component hold its proofs.
--
-- How the code is modelled. `Reader` is a record of the input and the offset. A function that takes the
-- reader is a `Read A`, from a reader to a result with the new reader; what the source passes as a
-- separate `input` is the reader's slice. A `Result` is a value (`ok`), an error (`err`), a panic on an
-- index out of range (`panic`), or `stuck`, which is no behaviour of the program: a loop ran out of fuel.
-- The loop over the chunks runs on fuel, one unit more than the input has bytes: each round takes
-- a byte at least. `bit_length` runs on fuel 64, the digits of a `usize`. The other loops are structural.
-- The doubling loop of `constant` runs on fuel, as many rounds as the output has bytes: each round adds
-- a byte at least.
-- Bytes and machine integers are natural numbers. Each sum, product and conversion that the source checks
-- is checked, a plain `+`, `-` or `*` on `usize` that would wrap around is a panic, and shifts to the left
-- are cut to 64 bits. Debug assertions are left out, as in a release build. `usize` has 64 bits.
--
-- In Execute, what the source mutates (the pool, the stream table, the count of live bytes) is passed
-- along and returned. A vector is its bytes with its capacity where the pool reads it. The pool's buffers
-- keep their stale bytes, as in a release build. The loop over the nodes takes the node decoders as an
-- argument `decode_node`, a function of the node, its inputs and header, the pool and a state of any type;
-- theorems about it hold for every such function that does not panic and returns a pool within its
-- bounds.
--
-- The hash function `xxhash_rust::xxh3::xxh3_64` is a parameter, a function from bytes to numbers, of
-- which nothing is assumed. The allocator is a parameter of the pool, `allocate`, from the bytes asked for
-- to the capacity given, or none where it fails; of a capacity it is assumed that it is enough.
--
-- Not modelled: failing allocation outside the pool; the detail texts of errors and the names in the
-- transform table, which serve these texts; the match from a node's ID to its decoder and the other node
-- decoders (crates/decode/src/execute/node.rs and the directories beside it), the direct-append path
-- (crates/decode/src/execute/direct_append.rs), the outputs of a frame
-- (crates/decode/src/execute/outputs.rs), dictionaries (crates/decode/src/dict.rs), the parser's shortcut
-- for zstd frames (crates/decode/src/parse/fast_zstd.rs), and the decoder's interface
-- (crates/decode/src/lib.rs); the tests, benchmarks, fuzz targets and tools.
mod Prelude
pub mod Core
pub mod Info
pub mod Varint
pub mod Parse
pub mod Standard
pub mod Execute
mod Tests

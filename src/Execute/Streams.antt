-- ===== src/Execute/Streams.antt =====
-- crates/decode/src/execute/streams.rs and header.rs: the streams that nodes read and write.
use ozlrip.Prelude.{length, ℕ, Bool, true, false, Option, none, some, List, [], ◌∷◌}
use ozlrip.Core.{Bytes, unsupported, error, Result, ok, err, saturating_add, saturating_mul}

pub record BorrowedStream : Type 0 where
  pub bytes : Bytes
  pub element_width : ℕ

pub record StreamInput : Type 0 where
  pub bytes : Bytes
  pub element_width : ℕ
  pub string_lengths : Option (List ℕ)

-- A vector with its capacity.
pub record Buffer : Type 0 where
  pub bytes : Bytes
  pub capacity : ℕ

-- `capacity` is that of the vector `bytes`. Only a recyclable stream's capacity is read.
pub record OwnedStream : Type 0 where
  pub bytes : Bytes
  pub capacity : ℕ
  pub element_width : ℕ
  pub string_lengths : Option (List ℕ)
  pub recyclable : Bool

abbrev pub lengths_bytes : Option (List ℕ) → ℕ
lengths_bytes none = 0
lengths_bytes (some lengths) = saturating_mul (length lengths) 4

unfoldable pub live_bytes : OwnedStream → ℕ
live_bytes stream = saturating_add (length stream.bytes) (lengths_bytes stream.string_lengths)

abbrev pub serial_stream : Bytes → OwnedStream
serial_stream bytes = record {
  bytes = bytes;
  capacity = length bytes;
  element_width = 1;
  string_lengths = none;
  recyclable = false;
}

abbrev pub strings_stream : Bytes → List ℕ → OwnedStream
strings_stream bytes lengths = record {
  bytes = bytes;
  capacity = length bytes;
  element_width = 1;
  string_lengths = some lengths;
  recyclable = false;
}

abbrev pub typed_stream : Bytes → ℕ → OwnedStream
typed_stream bytes element_width = record {
  bytes = bytes;
  capacity = length bytes;
  element_width = element_width;
  string_lengths = none;
  recyclable = false;
}

abbrev pub pooled_stream : Buffer → ℕ → OwnedStream
pooled_stream buffer element_width = record {
  bytes = buffer.bytes;
  capacity = buffer.capacity;
  element_width = element_width;
  string_lengths = none;
  recyclable = true;
}

unfoldable pub require_empty_header : Bytes → Result (Unit {0})
require_empty_header [] = ok tt
require_empty_header (b ∷ bs) = err (error unsupported)

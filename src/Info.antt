-- ===== src/Info.antt =====
-- crates/decode/src/info.rs: the types of a frame's outputs, and the public description of a frame.
use ozlrip.Prelude.{ℕ, Bool, List, Option}
use ozlrip.Core.{Bytes}

pub data FrameValueType : Type 0 where
  serial struct numeric string : FrameValueType

pub record FrameInfo : Type 0 where
  pub format_version : ℕ
  pub frame_bytes : ℕ
  pub header_bytes : ℕ
  pub decoded_bytes : Option ℕ
  pub chunks : ℕ
  pub outputs : ℕ
  pub output_types : List FrameValueType
  pub output_sizes : List (Option ℕ)
  pub output_elements : List (Option ℕ)
  pub transforms : ℕ
  pub stored_streams : ℕ
  pub regenerated_streams : ℕ
  pub has_decoded_checksum : Bool
  pub has_encoded_checksum : Bool
  pub has_comment : Bool
  pub comment : Option Bytes
  pub dictionary_bundle_id : Option Bytes

pub record FrameHeaderInfo : Type 0 where
  pub format_version : ℕ
  pub header_bytes : ℕ
  pub decoded_bytes : Option ℕ
  pub outputs : ℕ
  pub output_types : List FrameValueType
  pub output_sizes : List (Option ℕ)
  pub output_elements : List (Option ℕ)
  pub comment : Option Bytes
  pub dictionary_bundle_id : Option Bytes

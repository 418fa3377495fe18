-- ===== src/Standard/Table.antt =====
-- crates/decode/src/standard.rs: the table of the standard transforms. Names serve error texts only and
-- are left out.
use ozlrip.Prelude.{ℕ, Bool, true, false, List, [], ◌∷◌, Option, none, some}
use ozlrip.Info.{FrameValueType, serial, struct, numeric, string}
use ozlrip.Standard.Ids.{
  lz4_id, zstd_id, zstd_fixed_id, delta_int_id, transpose_id, concat_serial_id, splitn_id,
  bitpack_serial_id, bitpack_int_id, bitunpack_id, range_pack_id, tokenize_fixed_id,
  tokenize_numeric_id, tokenize_string_id, split_by_struct_id, dispatch_n_by_tag_id,
  merge_sorted_id, constant_serial_id, constant_fixed_id, prefix_id, dispatch_string_id,
  convert_serial_to_struct_id, convert_struct_to_serial_id, convert_struct_to_num_le_id,
  convert_num_to_struct_le_id, convert_serial_to_num_le_id, convert_num_to_serial_le_id,
  convert_string_to_serial_id, separate_string_components_id, convert_struct_to_num_be_id,
  convert_serial_to_num_be_id, fse_deprecated_id, huffman_deprecated_id,
  huffman_fixed_deprecated_id, sentinel_id, lz_id, rolz_deprecated_id, fastlz_deprecated_id,
  field_lz_id, quantize_offsets_id, quantize_lengths_id, partition_id, flatpack_id,
  float_deconstruct_id, zigzag_id, transpose_split_id, concat_num_id, concat_struct_id,
  parse_int_id, transpose_split2_id, transpose_split4_id, transpose_split8_id, splitn_struct_id,
  splitn_num_id, sparse_num_id, bit_split_id, mux_lengths_id, fse_v2_id, huffman_v2_id,
  huffman_struct_v2_id, fse_ncount_id, divide_by_id, dedup_num_id, concat_string_id,
  interleave_string_id, pivco_huffman_id,
}

pub record NodeShape : Type 0 where
  pub static_inputs : ℕ
  pub variable_inputs : Bool
  pub min_outputs : ℕ
  pub max_outputs : Option ℕ

pub record StandardNode : Type 0 where
  pub id : ℕ
  pub min_version : ℕ
  pub max_version : Option ℕ
  pub shape : NodeShape
  pub output_type : FrameValueType

abbrev pub fixed : ℕ → ℕ → NodeShape
fixed inputs outputs = record {
  static_inputs = inputs;
  variable_inputs = false;
  min_outputs = outputs;
  max_outputs = some outputs;
}

abbrev pub variable : ℕ → NodeShape
variable static_inputs = record {
  static_inputs = static_inputs;
  variable_inputs = true;
  min_outputs = 1;
  max_outputs = some 1;
}

abbrev pub fan_out : ℕ → NodeShape
fan_out static_inputs = record {
  static_inputs = static_inputs;
  variable_inputs = false;
  min_outputs = 1;
  max_outputs = none;
}

abbrev pub node : ℕ → ℕ → NodeShape → FrameValueType → StandardNode
node id min_version shape output_type = record {
  id = id;
  min_version = min_version;
  max_version = none;
  shape = shape;
  output_type = output_type;
}

abbrev pub deprecated : ℕ → ℕ → ℕ → NodeShape → FrameValueType → StandardNode
deprecated id min_version max_version shape output_type = record {
  id = id;
  min_version = min_version;
  max_version = some max_version;
  shape = shape;
  output_type = output_type;
}

unfoldable pub standard_nodes : List StandardNode
standard_nodes =
    (node delta_int_id 3 (fixed 1 1) numeric)
    ∷ (node transpose_id 3 (fixed 1 1) struct)
    ∷ (node zigzag_id 3 (fixed 1 1) numeric)
    ∷ (node transpose_split_id 11 (variable 0) struct)
    ∷ (node convert_serial_to_struct_id 3 (fixed 1 1) serial)
    ∷ (node convert_struct_to_serial_id 3 (fixed 1 1) struct)
    ∷ (node convert_struct_to_num_le_id 3 (fixed 1 1) struct)
    ∷ (node convert_num_to_struct_le_id 3 (fixed 1 1) numeric)
    ∷ (node convert_serial_to_num_le_id 3 (fixed 1 1) serial)
    ∷ (node convert_num_to_serial_le_id 3 (fixed 1 1) numeric)
    ∷ (node convert_string_to_serial_id 10 (fixed 1 1) serial)
    ∷ (node separate_string_components_id 10 (fixed 2 1) string)
    ∷ (node convert_struct_to_num_be_id 21 (fixed 1 1) struct)
    ∷ (node convert_serial_to_num_be_id 21 (fixed 1 1) serial)
    ∷ (deprecated fse_deprecated_id 3 14 (fixed 1 1) serial)
    ∷ (deprecated huffman_deprecated_id 3 14 (fixed 1 1) serial)
    ∷ (deprecated huffman_fixed_deprecated_id 3 14 (fixed 1 1) struct)
    ∷ (node sentinel_id 24 (fixed 2 1) numeric)
    ∷ (node lz_id 24 (fixed 4 1) serial)
    ∷ (deprecated rolz_deprecated_id 3 12 (fixed 1 1) serial)
    ∷ (deprecated fastlz_deprecated_id 3 12 (fixed 1 1) serial)
    ∷ (node zstd_id 3 (fixed 1 1) serial)
    ∷ (deprecated zstd_fixed_id 3 10 (fixed 1 1) struct)
    ∷ (node field_lz_id 3 (fixed 5 1) struct)
    ∷ (node quantize_offsets_id 3 (fixed 2 1) numeric)
    ∷ (node quantize_lengths_id 3 (fixed 2 1) numeric)
    ∷ (node bitpack_serial_id 3 (fixed 1 1) serial)
    ∷ (node bitpack_int_id 3 (fixed 1 1) numeric)
    ∷ (node flatpack_id 3 (fixed 2 1) serial)
    ∷ (node transpose_split2_id 3 (fixed 2 1) struct)
    ∷ (node transpose_split4_id 3 (fixed 4 1) struct)
    ∷ (node transpose_split8_id 3 (fixed 8 1) struct)
    ∷ (node float_deconstruct_id 4 (fixed 2 1) numeric)
    ∷ (node bitunpack_id 6 (fixed 1 1) serial)
    ∷ (node range_pack_id 8 (fixed 1 1) numeric)
    ∷ (node tokenize_fixed_id 8 (fixed 2 1) struct)
    ∷ (node tokenize_numeric_id 8 (fixed 2 1) numeric)
    ∷ (node tokenize_string_id 11 (fixed 2 1) string)
    ∷ (node splitn_id 9 (variable 0) serial)
    ∷ (node split_by_struct_id 9 (variable 0) serial)
    ∷ (node dispatch_n_by_tag_id 9 (variable 2) serial)
    ∷ (node merge_sorted_id 9 (fixed 2 1) numeric)
    ∷ (node constant_serial_id 11 (fixed 1 1) serial)
    ∷ (node constant_fixed_id 11 (fixed 1 1) struct)
    ∷ (node prefix_id 11 (fixed 2 1) string)
    ∷ (node splitn_struct_id 14 (variable 0) struct)
    ∷ (node splitn_num_id 14 (variable 0) numeric)
    ∷ (node fse_v2_id 15 (fixed 2 1) serial)
    ∷ (node huffman_v2_id 15 (fixed 2 1) serial)
    ∷ (node huffman_struct_v2_id 15 (fixed 2 1) struct)
    ∷ (node fse_ncount_id 15 (fixed 1 1) numeric)
    ∷ (node divide_by_id 16 (fixed 1 1) numeric)
    ∷ (node dispatch_string_id 16 (variable 1) string)
    ∷ (node concat_serial_id 16 (fan_out 2) serial)
    ∷ (node dedup_num_id 16 (fan_out 1) numeric)
    ∷ (node concat_num_id 17 (fan_out 2) numeric)
    ∷ (node concat_struct_id 17 (fan_out 2) struct)
    ∷ (node concat_string_id 18 (fan_out 2) string)
    ∷ (node parse_int_id 19 (fixed 1 1) string)
    ∷ (node interleave_string_id 20 (fan_out 1) string)
    ∷ (node lz4_id 23 (fixed 1 1) serial)
    ∷ (node bit_split_id 24 (variable 0) numeric)
    ∷ (node partition_id 24 (fixed 2 1) numeric)
    ∷ (node mux_lengths_id 24 (fixed 2 2) numeric)
    ∷ (node sparse_num_id 26 (fixed 2 1) numeric)
    ∷ (node pivco_huffman_id 27 (fixed 2 1) serial)
    ∷ []

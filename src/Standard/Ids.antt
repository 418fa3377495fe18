-- ===== src/Standard/Ids.antt =====
-- crates/decode/src/standard.rs: the IDs of the standard transforms.
use ozlrip.Prelude.{ℕ}

abbrev pub lz4_id : ℕ
lz4_id = 62

abbrev pub zstd_id : ℕ
zstd_id = 22

abbrev pub zstd_fixed_id : ℕ
zstd_fixed_id = 23

abbrev pub delta_int_id : ℕ
delta_int_id = 1

abbrev pub transpose_id : ℕ
transpose_id = 2

abbrev pub concat_serial_id : ℕ
concat_serial_id = 55

abbrev pub splitn_id : ℕ
splitn_id = 40

abbrev pub bitpack_serial_id : ℕ
bitpack_serial_id = 27

abbrev pub bitpack_int_id : ℕ
bitpack_int_id = 28

abbrev pub bitunpack_id : ℕ
bitunpack_id = 34

abbrev pub range_pack_id : ℕ
range_pack_id = 35

abbrev pub tokenize_fixed_id : ℕ
tokenize_fixed_id = 36

abbrev pub tokenize_numeric_id : ℕ
tokenize_numeric_id = 37

abbrev pub tokenize_string_id : ℕ
tokenize_string_id = 38

abbrev pub split_by_struct_id : ℕ
split_by_struct_id = 41

abbrev pub dispatch_n_by_tag_id : ℕ
dispatch_n_by_tag_id = 42

abbrev pub merge_sorted_id : ℕ
merge_sorted_id = 43

abbrev pub constant_serial_id : ℕ
constant_serial_id = 44

abbrev pub constant_fixed_id : ℕ
constant_fixed_id = 45

abbrev pub prefix_id : ℕ
prefix_id = 46

abbrev pub dispatch_string_id : ℕ
dispatch_string_id = 54

abbrev pub convert_serial_to_struct_id : ℕ
convert_serial_to_struct_id = 5

abbrev pub convert_struct_to_serial_id : ℕ
convert_struct_to_serial_id = 6

abbrev pub convert_struct_to_num_le_id : ℕ
convert_struct_to_num_le_id = 7

abbrev pub convert_num_to_struct_le_id : ℕ
convert_num_to_struct_le_id = 8

abbrev pub convert_serial_to_num_le_id : ℕ
convert_serial_to_num_le_id = 9

abbrev pub convert_num_to_serial_le_id : ℕ
convert_num_to_serial_le_id = 10

abbrev pub convert_string_to_serial_id : ℕ
convert_string_to_serial_id = 11

abbrev pub separate_string_components_id : ℕ
separate_string_components_id = 12

abbrev pub convert_struct_to_num_be_id : ℕ
convert_struct_to_num_be_id = 13

abbrev pub convert_serial_to_num_be_id : ℕ
convert_serial_to_num_be_id = 14

abbrev pub fse_deprecated_id : ℕ
fse_deprecated_id = 15

abbrev pub huffman_deprecated_id : ℕ
huffman_deprecated_id = 16

abbrev pub huffman_fixed_deprecated_id : ℕ
huffman_fixed_deprecated_id = 17

abbrev pub sentinel_id : ℕ
sentinel_id = 18

abbrev pub lz_id : ℕ
lz_id = 19

abbrev pub rolz_deprecated_id : ℕ
rolz_deprecated_id = 20

abbrev pub fastlz_deprecated_id : ℕ
fastlz_deprecated_id = 21

abbrev pub field_lz_id : ℕ
field_lz_id = 24

abbrev pub quantize_offsets_id : ℕ
quantize_offsets_id = 25

abbrev pub quantize_lengths_id : ℕ
quantize_lengths_id = 26

abbrev pub partition_id : ℕ
partition_id = 64

abbrev pub flatpack_id : ℕ
flatpack_id = 29

abbrev pub float_deconstruct_id : ℕ
float_deconstruct_id = 33

abbrev pub zigzag_id : ℕ
zigzag_id = 3

abbrev pub transpose_split_id : ℕ
transpose_split_id = 4

abbrev pub concat_num_id : ℕ
concat_num_id = 57

abbrev pub concat_struct_id : ℕ
concat_struct_id = 58

abbrev pub parse_int_id : ℕ
parse_int_id = 60

abbrev pub transpose_split2_id : ℕ
transpose_split2_id = 30

abbrev pub transpose_split4_id : ℕ
transpose_split4_id = 31

abbrev pub transpose_split8_id : ℕ
transpose_split8_id = 32

abbrev pub splitn_struct_id : ℕ
splitn_struct_id = 47

abbrev pub splitn_num_id : ℕ
splitn_num_id = 48

abbrev pub sparse_num_id : ℕ
sparse_num_id = 66

abbrev pub bit_split_id : ℕ
bit_split_id = 63

abbrev pub mux_lengths_id : ℕ
mux_lengths_id = 65

abbrev pub fse_v2_id : ℕ
fse_v2_id = 49

abbrev pub huffman_v2_id : ℕ
huffman_v2_id = 50

abbrev pub huffman_struct_v2_id : ℕ
huffman_struct_v2_id = 51

abbrev pub fse_ncount_id : ℕ
fse_ncount_id = 52

abbrev pub divide_by_id : ℕ
divide_by_id = 53

abbrev pub dedup_num_id : ℕ
dedup_num_id = 56

abbrev pub concat_string_id : ℕ
concat_string_id = 59

abbrev pub interleave_string_id : ℕ
interleave_string_id = 61

abbrev pub pivco_huffman_id : ℕ
pivco_huffman_id = 67

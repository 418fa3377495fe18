-- ===== src/Tests/Execute.antt =====
-- The theorems on the execution of a chunk at concrete inputs, and runs of its definitions.
use ozlrip.Varint
use ozlrip.Prelude.{
  if◌then◌else◌, length, get_elem?, get_range, ℕ, ◌+◌, ◌*◌, ◌^◌, ◌≤◌, ◌<◌, ◌≡◌, refl, ◌↔◌, inr,
  true, false, Option, none, some, List, [], ◌∷◌, ◌++◌, map, arith,
}
use ozlrip.Core.{
  Bytes, malformed, error, ok, err, panic, ◌>>=◌, checked_add, checked_mul, minus, plus,
  saturating_add, saturating_mul, usize_from, strict,
}
use ozlrip.Core.Yields.{Yields}
use ozlrip.Parse.Plan.{as_slice, ChunkPlan, stored_streams, stored_stream_range}
use ozlrip.Execute.Streams.{
  StreamInput, Buffer, OwnedStream, live_bytes, serial_stream, typed_stream, pooled_stream,
}
use ozlrip.Execute.Output.{check_output_len, OutputBudget, part, finish}
use ozlrip.Execute.Output.Budget.{consume_all, total, finish_iff}
use ozlrip.Execute.Runtime.{
  DecodeScratch, best_fit, swap_remove, take_pooled, take_pooled_or_new, take_byte_buffer,
  take_stale_byte_buffer, recycle_byte_buffer,
}
use ozlrip.Execute.Runtime.Pool.{IsPool, recycle_byte_buffer-IsPool}
use ozlrip.Execute.Runtime.Best.{Taken, take_pooled_or_new-Taken}
use ozlrip.Execute.Elements.{
  from_le_bytes, chunks_exact, read_var_u64, is_numeric_width, max_numeric_value,
  numeric_element_count, read_u32_element, read_usize_numeric_element,
}
use ozlrip.Execute.Elements.Values.{elements, bytes_of, all_fit}
use ozlrip.Execute.Numeric.Zigzag.{decode_zigzag_numeric_chunk}
use ozlrip.Execute.Numeric.Zigzag.RoundTrip.{zigzag, encode_zigzag, decode_zigzag-encode_zigzag}
use ozlrip.Execute.Numeric.Delta.{resize, decode_delta_elements, decode_delta_node}
use ozlrip.Execute.Numeric.Delta.Stale.{sums, decode_delta_elements-sums}
use ozlrip.Execute.Numeric.Delta.RoundTrip.{encode_delta, decode_delta-encode_delta}
use ozlrip.Execute.Numeric.Divide.{
  parse_divide_by_divisor, decode_divide_by_node, decode_range_pack_node,
}
use ozlrip.Execute.Numeric.Divide.Products.{decode_divide_by_node-eq}
use ozlrip.Execute.Numeric.Divide.Offsets.{decode_range_pack_node-eq}
use ozlrip.Execute.Numeric.Repeat.{
  repeat_constant_element, output_elements, decode_constant_typed_chunk,
}
use ozlrip.Execute.Numeric.Repeat.Doubling.{
  repeated, repeat_constant_element-repeated, decode_constant_typed_chunk-repeated,
}
use ozlrip.Execute.Numeric.Convert.{is_byte_preserving_conversion, decode_struct_to_num_be_chunk}
use ozlrip.Execute.Plan.{ChunkExecutionPlan, header}
use ozlrip.Execute.Slots.{
  as_input, store, fill_slots, initialize_stream_slots, inputs_of, collect_node_inputs, new_live,
  add, recycle_slots, recycle_consumed_owned_streams,
}
use ozlrip.Execute.Slots.Initial.{Stored, initialize_stream_slots-Stored}
use ozlrip.Execute.Chunk.{
  owned_chunk, NodeDecoder, place_outputs, try_execute_single_input_splitn_node,
  try_execute_byte_preserving_conversion_node, decode_and_place, execute_node, run_nodes, run_chunk,
  decode_transform_chunk_with_plan,
}
use ozlrip.Execute.Chunk.Bounded.{IsBounded}
use ozlrip.Execute.Chunk.Run.{IsNodeDecoder, run_chunk-IsBounded}
use ozlrip.Execute.Numeric.Convert.BigEndian.{
  from_be_bytes, decode_struct_to_num_be_chunk-from_be_bytes,
}
use ozlrip.Execute.Layout.Transpose.{
  write, transpose_row, transpose_rows, decode_transpose_node, decode_transpose_split_node,
}
use ozlrip.Execute.Layout.Transpose.Places.{decode_transpose_node-places}
use ozlrip.Execute.Layout.FastTranspose.{
  times, write_chunks, for_each_chunk, zip_lanes, write_2_chunk, write_2, write_4_chunk, write_4,
  write_other, write_lanes,
}
use ozlrip.Execute.Layout.Transpose.Interleaved.{decode_transpose_split_node-interleaved}
use ozlrip.Execute.Layout.Concat.{
  concat_size_count, concat_output_count, read_concat_size, cut_piece, cut_pieces, cut_apart,
}
use ozlrip.Execute.Layout.Concat.Pieces.{joined_bytes, cut_apart-joined}

abbrev three : OutputBudget
three = record { declared = 3; written = 0; reserved = false }

finish_iff_example :
    ((consume_all three (1 ∷ 2 ∷ []) >>= λ charged. finish charged) ≡ ok tt)
    ↔ (total (1 ∷ 2 ∷ []) ≡ 3)
unfolding part check_output_len
finish_iff_example = finish_iff 3 strict (1 ∷ 2 ∷ []) three refl (omega arith)

-- A pool of three buffers.
abbrev buffer_of : ℕ → Buffer
buffer_of capacity = record { bytes = 9 ∷ 9 ∷ []; capacity = capacity }

abbrev pool : DecodeScratch
pool = record {
  byte_buffers = buffer_of 1000 ∷ buffer_of 10 ∷ buffer_of 100 ∷ [];
  pooled_bytes = 1110;
}

pool-IsPool : IsPool pool
pool-IsPool = record { count = omega arith; counted = refl; size = omega arith }

recycle_byte_buffer-IsPool_example : Yields IsPool (recycle_byte_buffer pool (buffer_of 5))
recycle_byte_buffer-IsPool_example = recycle_byte_buffer-IsPool pool (buffer_of 5) pool-IsPool

-- An allocator that gives what is asked for.
abbrev exact : ℕ → Option ℕ
exact n = some n

exact-fits : (n capacity : ℕ) → exact n ≡ some capacity → n ≤ capacity
exact-fits n capacity e = ground arith

take_pooled_or_new-Taken_example : Yields (Taken pool 50) (take_pooled_or_new exact pool 50)
take_pooled_or_new-Taken_example = take_pooled_or_new-Taken exact pool 50 exact-fits pool-IsPool

takes_the_smallest :
    take_stale_byte_buffer exact pool 50
    ≡ ok (
      buffer_of 100,
      record { byte_buffers = buffer_of 1000 ∷ buffer_of 10 ∷ []; pooled_bytes = 1010 },
    )
unfolding take_stale_byte_buffer take_pooled_or_new best_fit take_pooled swap_remove minus
takes_the_smallest = refl

-- Two words of two bytes: 1 and -2.
abbrev words : Bytes
words = 1 ∷ 0 ∷ 254 ∷ 255 ∷ []

codes : encode_zigzag 2 words ≡ 2 ∷ 0 ∷ 3 ∷ 0 ∷ []
unfolding encode_zigzag zigzag elements chunks_exact bytes_of
codes = refl

decode_zigzag-encode_zigzag_example :
    decode_zigzag_numeric_chunk
      (record { bytes = encode_zigzag 2 words; element_width = 2; string_lengths = none })
      []
      strict
    ≡ ok (typed_stream words 2)
unfolding is_numeric_width check_output_len
decode_zigzag-encode_zigzag_example =
    decode_zigzag-encode_zigzag 2 words none strict refl refl (refl, (refl, (refl, (refl, tt))))
      refl

decode_delta_elements-sums_example :
    decode_delta_elements (3 ∷ 0 ∷ []) (1 ∷ 0 ∷ []) 2 4 (7 ∷ 7 ∷ 7 ∷ 7 ∷ 7 ∷ [])
    ≡ ok (1 ∷ 0 ∷ bytes_of 2 (sums 2 1 (elements 2 (3 ∷ 0 ∷ []))))
unfolding is_numeric_width
decode_delta_elements-sums_example =
    decode_delta_elements-sums (3 ∷ 0 ∷ []) (1 ∷ 0 ∷ []) 2 (7 ∷ 7 ∷ 7 ∷ 7 ∷ 7 ∷ []) refl refl refl

decode_delta-encode_delta_example :
    decode_delta_node exact
      (record { bytes = (encode_delta 21 2 words).1; element_width = 2; string_lengths = none })
      ((encode_delta 21 2 words).0)
      21
      strict
      pool
    ≡ ok (
      pooled_stream (record { bytes = words; capacity = 10 }) 2,
      record { byte_buffers = buffer_of 1000 ∷ buffer_of 100 ∷ []; pooled_bytes = 1100 },
    )
unfolding is_numeric_width check_output_len take_stale_byte_buffer take_pooled_or_new best_fit
    take_pooled swap_remove minus
decode_delta-encode_delta_example =
    decode_delta-encode_delta exact 21 2 words none strict pool
      (record { byte_buffers = buffer_of 1000 ∷ buffer_of 100 ∷ []; pooled_bytes = 1100 })
      (buffer_of 10) refl (omega arith) refl (refl, (refl, (refl, (refl, tt)))) (omega arith) refl
      refl

decode_divide_by_node-eq_example :
    decode_divide_by_node
      (record { bytes = 3 ∷ 100 ∷ []; element_width = 1; string_lengths = none })
      (5 ∷ [])
      strict
    ≡ (let values = map (λ value. value * 5) (elements 1 (3 ∷ 100 ∷ [])) in
        if all_fit (2 ^ (8 * 1)) values
        then ok (typed_stream (bytes_of 1 values) 1)
        else err (error malformed))
unfolding is_numeric_width check_output_len parse_divide_by_divisor read_var_u64 Varint.read_var_u64
    Varint.read_var_loop max_numeric_value
decode_divide_by_node-eq_example =
    decode_divide_by_node-eq 1 5 (3 ∷ 100 ∷ []) (5 ∷ []) none strict refl refl refl refl

decode_range_pack_node-eq_example :
    decode_range_pack_node
      (record { bytes = 3 ∷ 255 ∷ []; element_width = 1; string_lengths = none })
      (2 ∷ 4 ∷ 1 ∷ [])
      strict
    ≡ (let values = map (λ value. value + from_le_bytes (4 ∷ 1 ∷ [])) (elements 1 (3 ∷ 255 ∷ [])) in
        if all_fit (2 ^ (8 * 2)) values
        then ok (typed_stream (bytes_of 2 values) 2)
        else err (error malformed))
unfolding is_numeric_width check_output_len
decode_range_pack_node-eq_example =
    decode_range_pack_node-eq 1 2 (4 ∷ 1 ∷ []) (3 ∷ 255 ∷ []) none strict refl refl (omega arith)
      refl (inr refl) (omega arith) refl

repeat_constant_element-repeated_example :
    repeat_constant_element (1 ∷ 2 ∷ 3 ∷ []) 15 [] ≡ ok (repeated 5 (1 ∷ 2 ∷ 3 ∷ []))
repeat_constant_element-repeated_example =
    repeat_constant_element-repeated (1 ∷ 2 ∷ 3 ∷ []) 5 (omega arith) (omega arith)

decode_constant_typed_chunk-repeated_example :
    decode_constant_typed_chunk exact
      (record { bytes = 1 ∷ 2 ∷ 3 ∷ []; element_width = 3; string_lengths = none })
      (5 ∷ [])
      strict
      pool
    ≡ ok (
      pooled_stream (record { bytes = repeated 5 (1 ∷ 2 ∷ 3 ∷ []); capacity = 100 }) 3,
      record { byte_buffers = buffer_of 1000 ∷ buffer_of 10 ∷ []; pooled_bytes = 1010 },
    )
unfolding check_output_len take_byte_buffer take_pooled_or_new best_fit take_pooled swap_remove
    minus output_elements read_var_u64 Varint.read_var_u64 Varint.read_var_loop usize_from
decode_constant_typed_chunk-repeated_example =
    decode_constant_typed_chunk-repeated exact (1 ∷ 2 ∷ 3 ∷ []) (5 ∷ []) 5 none strict pool
      (record { byte_buffers = buffer_of 1000 ∷ buffer_of 10 ∷ []; pooled_bytes = 1010 })
      (record { bytes = []; capacity = 100 }) (omega arith) (omega arith) refl (omega arith) refl
      refl

-- A chunk of two stored streams and a node that fills the third slot.
abbrev stored_chunk : ChunkPlan
stored_chunk = record {
  nodes = [];
  stored_stream_sizes = 1 ∷ 2 ∷ [];
  transform_header_bytes = 0;
  stored_stream_bytes = 3;
  transform_header_range = record { start = 0; len = 0 };
  stored_stream_ranges = record { start = 0; len = 1 } ∷ record { start = 1; len = 2 } ∷ [];
  decoded_checksum = none;
  encoded_checksum = none;
}

abbrev copy_plan : ChunkExecutionPlan
copy_plan = record {
  nodes =
      record {
        standard_id = 3;
        input_start = 0;
        input_count = 2;
        output_targets = 2 ∷ [];
        variable_inputs = 0;
        dict_index = none;
        header_start = 0;
        header_size = 0;
      }
      ∷ [];
  regen_targets = false ∷ false ∷ true ∷ [];
}

initialize_stream_slots-Stored_example :
    Yields
      (λ slots.
        Stored
          (5 ∷ 6 ∷ 7 ∷ [])
          stored_chunk
          (false ∷ false ∷ true ∷ [])
          0
          slots
          (stored_streams stored_chunk))
      (initialize_stream_slots (5 ∷ 6 ∷ 7 ∷ []) stored_chunk (false ∷ false ∷ true ∷ []))
initialize_stream_slots-Stored_example =
    initialize_stream_slots-Stored (5 ∷ 6 ∷ 7 ∷ []) stored_chunk (false ∷ false ∷ true ∷ [])

-- A decoder that joins the bytes of the inputs.
abbrev joined : List StreamInput → Bytes
joined [] = []
joined (input ∷ inputs) = input.bytes ++ joined inputs

abbrev join : NodeDecoder (Unit {0})
join node inputs bytes scratch state = ok (serial_stream (joined inputs) ∷ [], (scratch, state))

join-IsNodeDecoder : IsNodeDecoder join
join-IsNodeDecoder = record { keeps = λ node inputs bytes scratch state p. record { holds = p } }

run_chunk-IsBounded_example :
    Yields
      (IsBounded strict.max_live_bytes)
      (run_chunk join (5 ∷ 6 ∷ 7 ∷ []) stored_chunk copy_plan strict pool tt)
run_chunk-IsBounded_example =
    run_chunk-IsBounded join (5 ∷ 6 ∷ 7 ∷ []) stored_chunk copy_plan strict pool tt
      join-IsNodeDecoder pool-IsPool (omega arith)

runs :
    decode_transform_chunk_with_plan join (5 ∷ 6 ∷ 7 ∷ []) stored_chunk copy_plan strict pool tt
    ≡ ok (owned_chunk (6 ∷ 7 ∷ 5 ∷ []), (pool, tt))
unfolding decode_transform_chunk_with_plan run_chunk run_nodes execute_node decode_and_place
    initialize_stream_slots fill_slots stored_stream_range as_slice checked_add get_range store
    header try_execute_single_input_splitn_node try_execute_byte_preserving_conversion_node
    is_byte_preserving_conversion collect_node_inputs inputs_of as_input
    recycle_consumed_owned_streams recycle_slots place_outputs swap_remove add live_bytes new_live
    saturating_add saturating_mul
runs = refl

decode_struct_to_num_be_chunk-from_be_bytes_example :
    (swapped : Bytes) × (decode_struct_to_num_be_chunk
        (record { bytes = words; element_width = 2; string_lengths = none })
        []
        strict
      ≡ ok (typed_stream swapped 2))
    × (length swapped ≡ length words)
    × (elements 2 swapped ≡ map from_be_bytes (chunks_exact 2 words))
    × (decode_struct_to_num_be_chunk
          (record { bytes = swapped; element_width = 2; string_lengths = none })
          []
          strict
        ≡ ok (typed_stream words 2))
unfolding is_numeric_width check_output_len
decode_struct_to_num_be_chunk-from_be_bytes_example =
    decode_struct_to_num_be_chunk-from_be_bytes 2 words none strict refl refl refl

-- Three elements of two bytes.
abbrev pairs : Bytes
pairs = 1 ∷ 2 ∷ 3 ∷ 4 ∷ 5 ∷ 6 ∷ []

decode_transpose_node-places_example :
    (output : Bytes) × (decode_transpose_node exact
        (record { bytes = pairs; element_width = 2; string_lengths = none })
        []
        strict
        pool
      ≡ ok (
        pooled_stream (record { bytes = output; capacity = 10 }) 3,
        record { byte_buffers = buffer_of 1000 ∷ buffer_of 100 ∷ []; pooled_bytes = 1100 },
      ))
    × (length output ≡ length pairs)
    × ((j k : ℕ) → j < 2 → k < 3 → get_elem? output (j * 3 + k) ≡ get_elem? pairs (k * 2 + j))
unfolding check_output_len take_stale_byte_buffer take_pooled_or_new best_fit take_pooled
    swap_remove minus
decode_transpose_node-places_example =
    decode_transpose_node-places exact 2 3 pairs none strict pool
      (record { byte_buffers = buffer_of 1000 ∷ buffer_of 100 ∷ []; pooled_bytes = 1100 })
      (buffer_of 10) (omega arith) (omega arith) refl refl refl

transposes :
    transpose_rows 2 0 3 2 3 pairs (0 ∷ 0 ∷ 0 ∷ 0 ∷ 0 ∷ 0 ∷ []) ≡ ok (1 ∷ 3 ∷ 5 ∷ 2 ∷ 4 ∷ 6 ∷ [])
unfolding transpose_rows transpose_row write
transposes = refl

-- Lanes of two bytes, and a pool whose one buffer holds more bytes than they all.
abbrev lane_of : ℕ → ℕ → StreamInput
lane_of a b = record { bytes = a ∷ b ∷ []; element_width = 1; string_lengths = none }

abbrev three_lanes : List StreamInput
three_lanes = lane_of 1 2 ∷ lane_of 3 4 ∷ lane_of 5 6 ∷ []

abbrev long_buffer : Buffer
long_buffer = record { bytes = 9 ∷ 9 ∷ 9 ∷ 9 ∷ 9 ∷ 9 ∷ 9 ∷ 9 ∷ []; capacity = 8 }

abbrev one_buffer : DecodeScratch
one_buffer = record { byte_buffers = long_buffer ∷ []; pooled_bytes = 8 }

abbrev no_buffers : DecodeScratch
no_buffers = record { byte_buffers = []; pooled_bytes = 0 }

decode_transpose_split_node-interleaved_example :
    (output : Bytes) × (decode_transpose_split_node exact three_lanes 3 [] strict one_buffer
      ≡ ok (pooled_stream (record { bytes = output; capacity = 8 }) 3, no_buffers))
    × (length output ≡ 6)
    × ((e k : ℕ) (lane : StreamInput)
        → e < 2
        → get_elem? three_lanes k ≡ some lane
        → get_elem? output (e * 3 + k) ≡ get_elem? lane.bytes e)
unfolding check_output_len take_stale_byte_buffer take_pooled_or_new best_fit take_pooled
    swap_remove minus
decode_transpose_split_node-interleaved_example =
    decode_transpose_split_node-interleaved exact 2 3 three_lanes strict one_buffer no_buffers
      long_buffer (omega arith) (refl, (refl, (refl, tt))) (inr refl) (omega arith) refl refl

interleaves_3 : write_lanes three_lanes 6 long_buffer.bytes ≡ ok (1 ∷ 3 ∷ 5 ∷ 2 ∷ 4 ∷ 6 ∷ [])
unfolding write_lanes write_other for_each_chunk write_chunks zip_lanes resize
interleaves_3 = refl

interleaves_4 :
    write_lanes (lane_of 7 8 ∷ three_lanes) 8 (9 ∷ []) ≡ ok (7 ∷ 1 ∷ 3 ∷ 5 ∷ 8 ∷ 2 ∷ 4 ∷ 6 ∷ [])
unfolding write_lanes write_4 write_4_chunk times for_each_chunk write_chunks resize
interleaves_4 = refl

-- Lanes of different lengths, which the node does not pass on.
uneven :
    write_lanes
      (lane_of 1 2 ∷ record { bytes = 3 ∷ []; element_width = 1; string_lengths = none } ∷ [])
      4
      []
    ≡ panic
unfolding write_lanes write_2 write_2_chunk times for_each_chunk write_chunks resize
uneven = refl

-- Two sizes, 1 and 2, and the stream that they cut.
abbrev size_table : StreamInput
size_table = record {
  bytes = 1 ∷ 0 ∷ 0 ∷ 0 ∷ 2 ∷ 0 ∷ 0 ∷ 0 ∷ [];
  element_width = 4;
  string_lengths = none;
}

abbrev three_bytes : StreamInput
three_bytes = record { bytes = 5 ∷ 6 ∷ 7 ∷ []; element_width = 1; string_lengths = none }

abbrev two_outputs : List OwnedStream
two_outputs = typed_stream (5 ∷ []) 1 ∷ typed_stream (6 ∷ 7 ∷ []) 1 ∷ []

cut_apart-joined_example : (joined_bytes two_outputs ≡ 5 ∷ 6 ∷ 7 ∷ []) × (length two_outputs ≡ 2)
unfolding cut_apart concat_output_count concat_size_count numeric_element_count cut_pieces cut_piece
    read_concat_size read_usize_numeric_element read_u32_element checked_mul checked_add plus
    get_range usize_from check_output_len
cut_apart-joined_example = cut_apart-joined size_table three_bytes 2 strict two_outputs refl

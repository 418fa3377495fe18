-- ===== src/Execute/Numeric/Convert/Safe.antt =====
-- The conversions' checks never panic.
use ozlrip.Varint
use ozlrip.Prelude.{
  ◌==◌, if◌then◌else◌, Option-cases, length, ℕ, ◌≡◌, inl, inr, Bool, true, false, not, Option, none,
  some, List, [], ◌∷◌,
}
use ozlrip.Core.{
  Bytes, limit_exceeded, invalid_graph, invalid_type, error, Result, ok, err, panic, stuck, ◌>>◌,
  fail_if, ok_or, checked_add, usize_from, Limits,
}
use ozlrip.Core.Safe.{
  IsSafe, IsSafe-ok, IsSafe-err, IsSafe-ok_or, IsSafe-bind, IsSafe-fail_if, IsSafe-checked_add,
  IsSafe-usize_from, safe_rules,
}
use ozlrip.Standard.Ids.{
  convert_serial_to_struct_id, convert_struct_to_serial_id, convert_struct_to_num_le_id,
  convert_num_to_struct_le_id, convert_serial_to_num_le_id, convert_num_to_serial_le_id,
  convert_string_to_serial_id,
}
use ozlrip.Execute.Streams.{StreamInput, require_empty_header}
use ozlrip.Execute.Output.{check_output_len}
use ozlrip.Execute.Elements.{map_err, read_var_u64, sum_from, checked_sum_u32}
use ozlrip.Execute.Numeric.Convert.{
  read_single_conversion_width, read_conversion_int_size, whole_elements, string_width,
  conversion_width, byte_preserving_conversion_output_width,
}
use ozlrip.Varint.Bounds.{read_var_u64-cases}
use mathlib.Core.Path.{subst}

pub IsSafe-check_output_len : (len : ℕ) (limits : Limits) → IsSafe (check_output_len len limits)
unfolding check_output_len
IsSafe-check_output_len len limits = IsSafe-fail_if _ _

pub IsSafe-require_empty_header : (header : Bytes) → IsSafe (require_empty_header header)
unfolding require_empty_header
IsSafe-require_empty_header [] = record { returns = tt }
IsSafe-require_empty_header (b ∷ bs) = record { returns = tt }

IsSafe-sum_from : (total : ℕ) (values : List ℕ) → IsSafe (sum_from total values)
unfolding sum_from
IsSafe-sum_from total [] = record { returns = tt }
IsSafe-sum_from total (raw ∷ values) =
    IsSafe-bind (usize_from raw (error limit_exceeded)) _ (IsSafe-usize_from _ _) λ value.
      IsSafe-bind (checked_add total value) _ (IsSafe-checked_add _ _)
        λ next. IsSafe-sum_from next values

IsSafe-map_err : (m : Result (ℕ × ℕ)) → IsSafe m → IsSafe (map_err m)
IsSafe-map_err (ok a) p = record { returns = tt }
IsSafe-map_err (err e) p = record { returns = tt }
IsSafe-map_err panic p = absurd p.returns
IsSafe-map_err stuck p = absurd p.returns

IsSafe-read_var_u64 : (bytes : Bytes) (offset : ℕ) → IsSafe (read_var_u64 bytes offset)
unfolding read_var_u64
IsSafe-read_var_u64 bytes offset =
    IsSafe-map_err (Varint.read_var_u64 bytes offset) (elim (read_var_u64-cases bytes offset) [
      | inl (p, e, _, _, _, _) ↦ rw e (IsSafe-ok p)
      | inr (e, q) ↦ rw q (IsSafe-err e)
    ])

IsSafe-read_single_conversion_width :
    (header : Bytes) → IsSafe (read_single_conversion_width header)
unfolding read_single_conversion_width
IsSafe-read_single_conversion_width header =
    IsSafe-bind (read_var_u64 header 0) _ (IsSafe-read_var_u64 header 0)
      λ (raw, offset). search safe_rules depth 10

IsSafe-read_conversion_int_size : (header : Bytes) → IsSafe (read_conversion_int_size header)
unfolding read_conversion_int_size
IsSafe-read_conversion_int_size [] = IsSafe-err _
IsSafe-read_conversion_int_size (int_log ∷ []) = search safe_rules depth 6
IsSafe-read_conversion_int_size (int_log ∷ b ∷ bs) = IsSafe-err _

IsSafe-string_width : (input : StreamInput) → IsSafe (string_width input)
unfolding string_width checked_sum_u32
IsSafe-string_width input =
    IsSafe-bind (fail_if (not (input.element_width == 1)) (error invalid_type)) _
      (IsSafe-fail_if _ _)
      λ _.
        IsSafe-bind (ok_or input.string_lengths (error invalid_type)) _ (IsSafe-ok_or _ _)
          λ lengths.
            IsSafe-bind (sum_from 0 lengths) _ (IsSafe-sum_from 0 lengths)
              λ total. search safe_rules depth 6

IsSafe-whole_elements : (input : StreamInput) (w : ℕ) → IsSafe (whole_elements input w)
IsSafe-whole_elements input w = search safe_rules depth 6

-- A conversion that there is, is safe.
record SafeWidth (o : Option (Result ℕ)) : Type 0 where
  safe : (read : Result ℕ) → o ≡ some read → IsSafe read

SafeWidth-some : (read : Result ℕ) → IsSafe read → SafeWidth (some read)
SafeWidth-some read p = record {
  safe = λ other e. subst IsSafe (let same : read ≡ other = cc in same) p;
}

SafeWidth-none : SafeWidth none
SafeWidth-none = record { safe = λ other e. absurd (cc) }

SafeWidth-if :
    (b : Bool) (x y : Option (Result ℕ))
    → SafeWidth x
    → SafeWidth y
    → SafeWidth (if b then x else y)
SafeWidth-if true x y p q = p
SafeWidth-if false x y p q = q

conversion_width-SafeWidth :
    (id : ℕ) (input : StreamInput) (header : Bytes) → SafeWidth (conversion_width id input header)
unfolding conversion_width
conversion_width-SafeWidth id input header =
    let plain = IsSafe-require_empty_header header in
    let kept =
      SafeWidth-some (require_empty_header header >> ok input.element_width)
        (IsSafe-bind _ _ plain λ _. IsSafe-ok _) in
    SafeWidth-if (id == convert_serial_to_struct_id) _ _ kept (
      SafeWidth-if (id == convert_struct_to_serial_id) _ _
        (SafeWidth-some _ (
          IsSafe-bind _ _ (IsSafe-read_single_conversion_width header)
            λ w. IsSafe-whole_elements input w))
        (SafeWidth-if (id == convert_struct_to_num_le_id) _ _ kept (
          SafeWidth-if (id == convert_num_to_struct_le_id) _ _ kept (
            SafeWidth-if (id == convert_string_to_serial_id) _ _
              (SafeWidth-some _ (IsSafe-bind _ _ plain λ _. IsSafe-string_width input))
              (SafeWidth-if (id == convert_serial_to_num_le_id) _ _
                (SafeWidth-some _ (IsSafe-bind _ _ plain λ _. IsSafe-ok 1))
                (SafeWidth-if (id == convert_num_to_serial_le_id) _ _
                  (SafeWidth-some _ (
                    IsSafe-bind _ _ (IsSafe-read_conversion_int_size header)
                      λ w. IsSafe-whole_elements input w))
                  SafeWidth-none))))))

pub IsSafe-byte_preserving_conversion_output_width :
    (id input_count : ℕ) (input : StreamInput) (header : Bytes) (limits : Limits)
    → IsSafe (byte_preserving_conversion_output_width id input_count input header limits)
unfolding byte_preserving_conversion_output_width
IsSafe-byte_preserving_conversion_output_width id input_count input header limits =
    elim (Option-cases (conversion_width id input header)) [
      | inl e ↦ rw (e, byte_preserving_conversion_output_width) (IsSafe-ok none)
      | inr (read, e) ↦
          rw (e, byte_preserving_conversion_output_width)
            (IsSafe-bind read _ ((conversion_width-SafeWidth id input header).safe read e) λ w.
              IsSafe-bind (fail_if (not (input_count == 1)) (error invalid_graph)) _
                (IsSafe-fail_if _ _)
                λ _.
                  IsSafe-bind (check_output_len (length input.bytes) limits) _
                    (IsSafe-check_output_len _ _) λ _. IsSafe-ok _)
    ]

-- ===== src/Execute/Output.antt =====
-- crates/decode/src/execute/output.rs: limits on outputs, and the budget of one frame output.
pub mod Budget
use ozlrip.Prelude.{
  ltb, leb, ◌==◌, if◌then◌else◌, get_elem?, ℕ, ◌%◌, ◌^◌, bit_and, Bool, true, false, not, ◌||◌,
  Option, none, some, [],
}
use ozlrip.Core.{
  Bytes, malformed, unsupported, limit_exceeded, checksum_mismatch, Error, error, Result, ok, err,
  ◌>>=◌, ◌>>◌, fail_if, ok_or, checked_mul, minus, plus, usize_from, Limits,
}
use ozlrip.Parse.Plan.{FramePlan}

unfoldable pub check_output_len : ℕ → Limits → Result (Unit {0})
check_output_len len limits =
    fail_if (ltb limits.max_decoded_bytes len || ltb limits.max_buffer_bytes len)
      (error limit_exceeded)

-- `alloc_output`: an empty vector with room for `len` bytes; the allocation succeeds.
unfoldable pub alloc_output : ℕ → Limits → Result Bytes
alloc_output len limits = check_output_len len limits >> ok []

pub record OutputBudget : Type 0 where
  pub declared : ℕ
  pub written : ℕ
  pub reserved : Bool

-- `size_mismatch`
abbrev pub size_mismatch : Error
size_mismatch = error malformed

unfoldable pub declared_output_size : FramePlan → ℕ → Result ℕ
declared_output_size plan i = elim (get_elem? plan.info.output_sizes i) [
  | none ↦ err (error unsupported)
  | some size ↦ (do
    declared ← ok_or size (error unsupported)
    usize_from declared (error limit_exceeded))
]

unfoldable pub check_expansion : ℕ → ℕ → Limits → Result (Unit {0})
check_expansion declared encoded_size limits =
    if leb declared limits.expansion_ratio_exempt_bytes then ok tt else do
      max_expanded ← checked_mul encoded_size limits.max_expansion_ratio
      fail_if (ltb max_expanded declared) (error limit_exceeded)

unfoldable pub part : ℕ → Limits → Result OutputBudget
part declared limits = do
  check_output_len declared limits
  ok (record { declared = declared; written = 0; reserved = false })

unfoldable pub new_budget : ℕ → ℕ → Limits → Result OutputBudget
new_budget declared encoded_size limits = do
  budget ← part declared limits
  check_expansion declared encoded_size limits
  ok budget

unfoldable pub for_output : FramePlan → ℕ → ℕ → Limits → Result OutputBudget
for_output plan i encoded_size limits = do
  declared ← declared_output_size plan i
  new_budget declared encoded_size limits

unfoldable pub remaining : OutputBudget → Result ℕ
remaining budget = minus budget.declared budget.written

-- `reserve`: allocation succeeds, and sets the flag.
unfoldable pub reserve : OutputBudget → OutputBudget
reserve budget = record budget { reserved = true }

unfoldable pub consume : OutputBudget → ℕ → Result OutputBudget
consume budget len = do
  left ← remaining budget
  fail_if (ltb left len) size_mismatch
  written ← plus budget.written len
  ok (record budget { written = written })

unfoldable pub finish : OutputBudget → Result (Unit {0})
finish budget = if budget.written == budget.declared then ok tt else err size_mismatch

-- `xxh3` is `xxhash_rust::xxh3::xxh3_64`.
unfoldable pub verify_decoded_checksum : (xxh3 : Bytes → ℕ) → Bytes → Option ℕ → Result (Unit {0})
verify_decoded_checksum xxh3 output none = ok tt
verify_decoded_checksum xxh3 output (some expected) =
    fail_if (not (bit_and (xxh3 output) 0xffff_ffff % 2 ^ 32 == expected)) (error checksum_mismatch)

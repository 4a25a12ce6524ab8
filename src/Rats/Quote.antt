-- ===== src/Rats/Quote.antt =====
-- internal/infra/rats/intel_qvl_quote.go: the report data of an SGX quote.
pub mod Ends
pub mod Bounds
use attes_tam.Base.{
  ℕ, zero, suc, ◌+◌, ◌*◌, ◌^◌, ◌-◌, ◌≤◌, Bool, true, false, ◌||◌, Option, none, some, List, [], ◌∷◌,
  Bytes, length, take, drop, ltb, ◌==◌, if◌then◌else◌,
}

abbrev pub quote_header_version_size : ℕ
quote_header_version_size = 2

abbrev pub quote_report_data_size : ℕ
quote_report_data_size = 64

abbrev pub sgx_report_body_size : ℕ
sgx_report_body_size = 384

abbrev pub sgx_quote3_size : ℕ
sgx_quote3_size = 436

abbrev pub sgx_quote4_size : ℕ
sgx_quote4_size = 436

abbrev pub sgx_quote5_header_size : ℕ
sgx_quote5_header_size = 48

abbrev pub sgx_quote5_type_offset : ℕ
sgx_quote5_type_offset = 4

abbrev pub sgx_quote5_body_len_off : ℕ
sgx_quote5_body_len_off = 44

abbrev pub sgx_report_data_offset_in_body : ℕ
sgx_report_data_offset_in_body = 320

abbrev pub sgx_report_data_offset_in_quote : ℕ
sgx_report_data_offset_in_quote = 368

-- What reading a quote ends in. `panic` is a slice expression out of range.
pub data Outcome : Type 0 where
  bytes_read : Bytes → Outcome
  refused : Outcome
  panic : Outcome

-- binary.LittleEndian
abbrev pub little_endian : Bytes → ℕ
little_endian [] = 0
little_endian (b ∷ bs) = b + 256 * little_endian bs

-- quote[from : from+size], which panics past the end
unfoldable pub slice : ℕ → ℕ → Bytes → Option Bytes
slice from size quote =
    if ltb (length quote) (from + size) then none else some (take size (drop from quote))

abbrev pub slice_or_panic : Option Bytes → Outcome
slice_or_panic none = panic
slice_or_panic (some s) = bytes_read s

abbrev pub number_or_panic : Option Bytes → (ℕ → Outcome) → Outcome
number_or_panic none f = panic
number_or_panic (some s) f = f (little_endian s)

-- the `case quoteVersion5`; `int` has 64 bits, so the sum with the body's size does not wrap
unfoldable pub quote5_report_data : Bytes → Outcome
unfolding slice
quote5_report_data quote =
    if ltb (length quote) sgx_quote5_header_size
    then refused
    else number_or_panic (slice sgx_quote5_type_offset 2 quote) λ body_type.
      number_or_panic (slice sgx_quote5_body_len_off 4 quote) λ body_size.
        if ltb (length quote) (sgx_quote5_header_size + body_size)
        then refused
        else if body_type == 1 || (body_type == 2 || (body_type == 3 || body_type == 4))
        then (if ltb body_size sgx_report_body_size
            then refused
            else slice_or_panic (
                slice (sgx_quote5_header_size + sgx_report_data_offset_in_body)
                  quote_report_data_size quote))
        else refused

unfoldable pub extract_quote_report_data : Bytes → Outcome
unfolding slice quote5_report_data
extract_quote_report_data quote =
    if ltb (length quote) quote_header_version_size
    then refused
    else number_or_panic (slice 0 quote_header_version_size quote) λ version.
      if version == 3
      then (if ltb (length quote) sgx_quote3_size
          then refused
          else slice_or_panic (slice sgx_report_data_offset_in_quote quote_report_data_size quote))
      else if version == 4
      then (if ltb (length quote) sgx_quote4_size
          then refused
          else slice_or_panic (slice sgx_report_data_offset_in_quote quote_report_data_size quote))
      else if version == 5
      then quote5_report_data quote
      else refused

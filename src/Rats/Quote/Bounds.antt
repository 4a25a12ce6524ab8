-- ===== src/Rats/Quote/Bounds.antt =====
-- The indices at which a quote is read (internal/infra/rats/intel_qvl_quote.go).
use attes_tam.Base.{ℕ, ◌+◌, ◌≡◌, false, ◌||◌, Bytes, length, ltb, ◌==◌, arith, if◌then◌else◌}
use attes_tam.Rats.Quote.{
  Outcome, slice, refused, slice_or_panic, quote5_report_data, extract_quote_report_data,
}
use attes_tam.Rats.Quote.Ends.{Ends, shorter, length-slice, slice-Ends, number-Ends, if-Ends}

-- No panic, and 64 bytes.
abbrev pub IsSafe : Outcome → Type 0
IsSafe = Ends (λ bytes. length bytes ≡ 64)

slice-IsSafe :
    (from : ℕ) (quote : Bytes)
    → ltb (length quote) (from + 64) ≡ false
    → IsSafe (slice_or_panic (slice from 64 quote))
slice-IsSafe from quote h = slice-Ends _ from 64 quote h (length-slice from 64 quote h)

quote5-IsSafe : (quote : Bytes) → IsSafe (quote5_report_data quote)
unfolding quote5_report_data
quote5-IsSafe quote =
    if-Ends _ (ltb (length quote) 48) _ _ (λ _. tt)
      λ header.
        number-Ends _ 4 2 quote _ (shorter (length quote) 6 48 (omega arith) header) λ body_type.
          number-Ends _ 44 4 quote _ header λ body_size.
            if-Ends _ (ltb (length quote) (48 + body_size)) _ _ (λ _. tt)
              λ body.
                if-Ends _ (body_type == 1 || (body_type == 2 || (body_type == 3 || body_type == 4)))
                  _ _
                  (λ _.
                    if-Ends _ (ltb body_size 384) _ _ (λ _. tt)
                      λ large.
                        slice-IsSafe 368 quote
                          (shorter (length quote) 432 (48 + body_size) (ground arith) body))
                  (λ _. tt)

-- ExtractQuoteReportData never panics, whatever bytes it is given, and the report data that it
-- returns has 64 bytes.
pub extract_quote_report_data-IsSafe : (quote : Bytes) → IsSafe (extract_quote_report_data quote)
unfolding extract_quote_report_data
extract_quote_report_data-IsSafe quote =
    if-Ends _ (ltb (length quote) 2) _ _ (λ _. tt)
      λ long. number-Ends _ 0 2 quote _ long λ version.
        if-Ends _ (version == 3) _ _ (λ _. fixed)
          λ _.
            if-Ends _ (version == 4) _ _ (λ _. fixed)
              λ _. if-Ends _ (version == 5) _ _ (λ _. quote5-IsSafe quote) (λ _. tt)
  where
    fixed : IsSafe (if ltb (length quote) 436 then refused else slice_or_panic (slice 368 64 quote))
    fixed =
        if-Ends _ (ltb (length quote) 436) _ _ (λ _. tt)
          λ large. slice-IsSafe 368 quote (shorter (length quote) 432 436 (omega arith) large)

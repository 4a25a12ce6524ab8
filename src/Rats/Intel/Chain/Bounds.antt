-- ===== src/Rats/Intel/Chain/Bounds.antt =====
-- The indices at which the certification data is read (internal/infra/rats/intel_qvl_pcs.go).
use attes_tam.Base.{
  ℕ, ◌+◌, ◌≤◌, ◌≡◌, refl, false, not, ◌&&◌, Bytes, length, take, drop, ltb, ◌==◌, arith,
}
use attes_tam.Rats.Quote.{slice, slice_or_panic}
use attes_tam.Rats.Quote.Ends.{
  Ends, not_shorter, shorter, length-slice, slice-Ends, number-Ends, if-Ends,
}
use attes_tam.Rats.Intel.Chain.{extract_cert_data, extract_pck_cert_chain}

-- The bytes that stand from `start` on, and end within the quote.
pub record IsWithin (quote bytes : Bytes) : Type 0 where
  pub start : ℕ
  pub fits : start + length bytes ≤ length quote
  pub is_there : take (length bytes) (drop start quote) ≡ bytes

slice-IsWithin :
    (from size : ℕ) (quote : Bytes)
    → ltb (length quote) (from + size) ≡ false
    → Ends (IsWithin quote) (slice_or_panic (slice from size quote))
slice-IsWithin from size quote h =
    let whole = length-slice from size quote h in
    slice-Ends _ from size quote h (record {
      start = from;
      fits = omega (arith, not_shorter (length quote) (from + size) h);
      is_there = rw whole refl;
    })

cert_data-IsWithin :
    (offset : ℕ) (quote : Bytes) → Ends (IsWithin quote) (extract_cert_data offset quote)
unfolding extract_cert_data
cert_data-IsWithin offset quote =
    if-Ends _ (ltb (length quote) (offset + 6)) _ _ (λ _. tt)
      λ header.
        number-Ends _ offset 2 quote _ (shorter _ (offset + 2) (offset + 6) (omega arith) header)
          λ key_type.
            number-Ends _ (offset + 2) 4 quote _
              (shorter _ (offset + 2 + 4) (offset + 6) (omega arith) header)
              λ size.
                if-Ends _ (ltb (length quote) (offset + 6 + size)) _ _ (λ _. tt)
                  λ whole.
                    if-Ends _ (not (key_type == 5)) _ _ (λ _. tt)
                      λ _. slice-IsWithin (offset + 6) size quote whole

-- extractIntelQVLQuotePCKCertChain never panics, whatever bytes it is given and whatever sizes they
-- name, and what it returns is a part of the quote.
pub extract_pck_cert_chain-IsWithin :
    (quote : Bytes) → Ends (IsWithin quote) (extract_pck_cert_chain quote)
unfolding extract_pck_cert_chain
extract_pck_cert_chain-IsWithin quote =
    if-Ends _ (ltb (length quote) 436) _ _ (λ _. tt)
      λ long. number-Ends _ 0 2 quote _ (shorter _ 2 436 (omega arith) long) λ version.
        if-Ends _ (not (version == 3) && not (version == 4)) _ _ (λ _. tt)
          λ _. number-Ends _ 432 4 quote _ long λ size.
            if-Ends _ (ltb (length quote) (436 + size)) _ _ (λ _. tt)
              λ signed.
                if-Ends _ (ltb size 584) _ _ (λ _. tt)
                  λ large.
                    number-Ends _ 1012 2 quote _
                      (shorter _ 1014 (436 + size) (omega (arith, not_shorter size 584 large))
                        signed)
                      λ auth. cert_data-IsWithin (1012 + (2 + auth)) quote

-- ===== src/Rats/Qvl/Affirming.antt =====
-- Which results of Intel's library count as affirming (internal/infra/rats/intel_qvl_common.go).
use attes_tam.Base.{ℕ, ◌≡◌, ◌≢◌, ◌≤◌, ◌↔◌, ◌⊎◌, true, arith}
use attes_tam.Rats.Qvl.{classify_intel_qvl_result, is_intel_qvl_result_affirming_value}

-- The result is OK or one of the codes of Intel's advisories, and none of the three that say that
-- the signature is invalid, a key revoked or the reason unspecified.
abbrev pub IsAcceptable : ℕ → Type 0
IsAcceptable r =
    (r ≡ 0) ⊎ ((0xa001 ≤ r) × ((r ≤ 0xa00a) × ((r ≢ 0xa004) × ((r ≢ 0xa005) × (r ≢ 0xa006)))))

affirming-IsAcceptable :
    (r e : ℕ) → is_intel_qvl_result_affirming_value r e ≡ true → (e ≡ 0) × IsAcceptable r
unfolding is_intel_qvl_result_affirming_value classify_intel_qvl_result
affirming-IsAcceptable r e h = ground arith

acceptable-is_affirming :
    (r e : ℕ) → (e ≡ 0) × IsAcceptable r → is_intel_qvl_result_affirming_value r e ≡ true
unfolding is_intel_qvl_result_affirming_value classify_intel_qvl_result
acceptable-is_affirming r e h = ground arith

-- A verification affirms exactly if no collateral has expired and the result is acceptable.
pub affirming_iff_IsAcceptable :
    (r e : ℕ) → (is_intel_qvl_result_affirming_value r e ≡ true) ↔ ((e ≡ 0) × IsAcceptable r)
affirming_iff_IsAcceptable r e = (affirming-IsAcceptable r e, acceptable-is_affirming r e)

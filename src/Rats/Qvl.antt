-- ===== src/Rats/Qvl.antt =====
-- internal/infra/rats/intel_qvl_common.go: what a result of Intel's library counts as.
pub mod Affirming
use attes_tam.Base.{
  ℕ, ◌≡◌, refl, Bool, true, false, not, ◌||◌, Bytes, ◌==◌, if◌then◌else◌, arith, ◌⊎◌,
}
use attes_tam.Text.{text}

pub data Classification : Type 0 where
  ok ok_with_warnings failure : Classification

abbrev pub result_ok : ℕ
result_ok = 0x0000

abbrev pub result_config_needed : ℕ
result_config_needed = 0x0000a001

abbrev pub result_out_of_date : ℕ
result_out_of_date = 0x0000a002

abbrev pub result_out_of_date_config_needed : ℕ
result_out_of_date_config_needed = 0x0000a003

abbrev pub result_invalid_signature : ℕ
result_invalid_signature = 0x0000a004

abbrev pub result_revoked : ℕ
result_revoked = 0x0000a005

abbrev pub result_unspecified : ℕ
result_unspecified = 0x0000a006

abbrev pub result_sw_hardening_needed : ℕ
result_sw_hardening_needed = 0x0000a007

abbrev pub result_config_and_sw_hardening_needed : ℕ
result_config_and_sw_hardening_needed = 0x0000a008

abbrev pub result_td_relaunch_advised : ℕ
result_td_relaunch_advised = 0x0000a009

abbrev pub result_td_relaunch_advised_config_needed : ℕ
result_td_relaunch_advised_config_needed = 0x0000a00a

unfoldable pub classify_intel_qvl_result : ℕ → ℕ → Classification
classify_intel_qvl_result result expiration_status =
    if not (expiration_status == 0)
    then failure
    else if result == result_ok
    then ok
    else if result == result_config_needed
        || (result == result_out_of_date
            || (result == result_out_of_date_config_needed
                || (result == result_sw_hardening_needed
                    || (result == result_config_and_sw_hardening_needed
                        || (result == result_td_relaunch_advised
                            || result == result_td_relaunch_advised_config_needed)))))
    then ok_with_warnings
    else failure

abbrev pub is_affirming_classification : Classification → Bool
is_affirming_classification ok = true
is_affirming_classification ok_with_warnings = true
is_affirming_classification failure = false

unfoldable pub is_intel_qvl_result_affirming_value : ℕ → ℕ → Bool
unfolding classify_intel_qvl_result
is_intel_qvl_result_affirming_value result expiration_status =
    is_affirming_classification (classify_intel_qvl_result result expiration_status)

abbrev pub result_to_ear_status : Bool → Bytes
result_to_ear_status true = text "affirming"
result_to_ear_status false = text "non-affirming"

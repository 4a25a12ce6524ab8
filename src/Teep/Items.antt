-- ===== src/Teep/Items.antt =====
-- DataItemRequested of internal/tam/teep_message.go: the flags of a QueryRequest.
use Prim.Native.Nat.{bit_and, bit_or}
use attes_tam.Base.{ℕ, ◌+◌, ◌≡◌, refl, Bool, true, false, not, ◌==◌, if◌then◌else◌}

abbrev pub attestation_mask : ℕ
attestation_mask = 0b1

abbrev pub tc_list_mask : ℕ
tc_list_mask = 0b10

abbrev pub extensions_mask : ℕ
extensions_mask = 0b100

abbrev pub suit_reports_mask : ℕ
suit_reports_mask = 0b1000

unfoldable pub request_data_item : Bool → Bool → Bool → Bool → ℕ
request_data_item attestation tc_list extensions suit_reports =
    let v0 : ℕ = 0 in
    let v1 = if attestation then bit_or v0 attestation_mask else v0 in
    let v2 = if tc_list then bit_or v1 tc_list_mask else v1 in
    let v3 = if extensions then bit_or v2 extensions_mask else v2 in
    if suit_reports then v3 + suit_reports_mask else v3

unfoldable pub attestation_requested : ℕ → Bool
attestation_requested v = not (bit_and v attestation_mask == 0)

unfoldable pub tc_list_requested : ℕ → Bool
tc_list_requested v = not (bit_and v tc_list_mask == 0)

unfoldable pub extensions_requested : ℕ → Bool
extensions_requested v = not (bit_and v extensions_mask == 0)

unfoldable pub suit_reports_requested : ℕ → Bool
suit_reports_requested v = not (bit_and v suit_reports_mask == 0)

-- The four flags that are put into a word are the four that are read from it.
pub request_data_item-flags :
    (a t e s : Bool)
    → (attestation_requested (request_data_item a t e s) ≡ a)
      × (tc_list_requested (request_data_item a t e s) ≡ t)
      × (extensions_requested (request_data_item a t e s) ≡ e)
      × (suit_reports_requested (request_data_item a t e s) ≡ s)
unfolding request_data_item attestation_requested tc_list_requested extensions_requested
    suit_reports_requested
request_data_item-flags true true true true = (refl, refl, refl, refl)
request_data_item-flags true true true false = (refl, refl, refl, refl)
request_data_item-flags true true false true = (refl, refl, refl, refl)
request_data_item-flags true true false false = (refl, refl, refl, refl)
request_data_item-flags true false true true = (refl, refl, refl, refl)
request_data_item-flags true false true false = (refl, refl, refl, refl)
request_data_item-flags true false false true = (refl, refl, refl, refl)
request_data_item-flags true false false false = (refl, refl, refl, refl)
request_data_item-flags false true true true = (refl, refl, refl, refl)
request_data_item-flags false true true false = (refl, refl, refl, refl)
request_data_item-flags false true false true = (refl, refl, refl, refl)
request_data_item-flags false true false false = (refl, refl, refl, refl)
request_data_item-flags false false true true = (refl, refl, refl, refl)
request_data_item-flags false false true false = (refl, refl, refl, refl)
request_data_item-flags false false false true = (refl, refl, refl, refl)
request_data_item-flags false false false false = (refl, refl, refl, refl)

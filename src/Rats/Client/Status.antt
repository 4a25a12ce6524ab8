-- ===== src/Rats/Client/Status.antt =====
-- Where the status of a response stands (internal/infra/rats/attest_response.go).
use attes_tam.Base.{
  ◌≡◌, ◌≢◌, refl, ap, sym, ◌∙◌, Bool, true, false, Option, none, some, [], ◌∷◌, Bytes, bytes_eq,
  if◌then◌else◌,
}
use attes_tam.Exec.{Result, ok, err}
use attes_tam.Text.{text, to_lower, equal_fold, trim_space}
use attes_tam.Rats.Json.{Json, Fields, empty, field, object, member}
use attes_tam.Exec.{ok-injective}
use attes_tam.Rats.Response.{
  AttestationResponse, Selection, should_send_update, submod_of, submod_keys, status_of, status_in,
  status_among, extract_ear_status, selected, select_update_artifact,
}

-- The status stands in the first object among the submods that are looked for.
pub record HasStatus (claims : Fields) (status : Bytes) : Type 0 where
  pub submods : Fields
  pub is_submods : member (text "submods") claims ≡ some (object submods)
  pub submod : Fields
  pub is_submod : submod_of submods submod_keys ≡ some submod
  pub value : Bytes
  pub is_value : member (text "ear.status") submod ≡ some (Json.string value)
  pub is_status : trim_space value ≡ status

module _ (claims : Fields) (status : Bytes) where
  value-HasStatus :
      (submods submod : Fields) (v : Option Json)
      → member (text "submods") claims ≡ some (object submods)
      → submod_of submods submod_keys ≡ some submod
      → member (text "ear.status") submod ≡ v
      → status_of v ≡ ok status
      → HasStatus claims status
  value-HasStatus submods submod none e f g h = cc
  value-HasStatus submods submod (some Json.null) e f g h = cc
  value-HasStatus submods submod (some (Json.boolean _)) e f g h = cc
  value-HasStatus submods submod (some (Json.number _)) e f g h = cc
  value-HasStatus submods submod (some (Json.array _)) e f g h = cc
  value-HasStatus submods submod (some (object _)) e f g h = cc
  value-HasStatus submods submod (some (Json.string s)) e f g h = record {
    submods = submods;
    is_submods = e;
    submod = submod;
    is_submod = f;
    value = s;
    is_value = g;
    is_status = ok-injective (trim_space s) status h;
  }

  submod-HasStatus :
      (submods : Fields) (o : Option Fields)
      → member (text "submods") claims ≡ some (object submods)
      → submod_of submods submod_keys ≡ o
      → status_in o ≡ ok status
      → HasStatus claims status
  submod-HasStatus submods none e f h = cc
  submod-HasStatus submods (some submod) e f h =
      value-HasStatus submods submod (member (text "ear.status") submod) e f refl h

  among-HasStatus :
      (o : Option Json)
      → member (text "submods") claims ≡ o
      → status_among o ≡ ok status
      → HasStatus claims status
  among-HasStatus none e h = cc
  among-HasStatus (some Json.null) e h = cc
  among-HasStatus (some (Json.boolean _)) e h = cc
  among-HasStatus (some (Json.number _)) e h = cc
  among-HasStatus (some (Json.string _)) e h = cc
  among-HasStatus (some (Json.array _)) e h = cc
  among-HasStatus (some (object submods)) e h =
      submod-HasStatus submods (submod_of submods submod_keys) e refl h

extract-HasStatus :
    (claims : Fields) (status : Bytes)
    → extract_ear_status claims ≡ ok status
    → HasStatus claims status
unfolding extract_ear_status
extract-HasStatus empty status h = cc
extract-HasStatus (field n v rest) status h =
    among-HasStatus (field n v rest) status (member (text "submods") (field n v rest)) refl h

not_empty : (s : Bytes) → equal_fold s (text "affirming") ≡ true → s ≢ []
unfolding equal_fold to_lower bytes_eq
not_empty [] h e = cc
not_empty (c ∷ s) h e = cc

-- An affirming status is selected only of a complete response, and is that of its claims.
pub selected-HasStatus :
    (r : AttestationResponse) (claims : Fields) (status : Bytes)
    → (select_update_artifact r claims).status ≡ status
    → equal_fold status (text "affirming") ≡ true
    → (should_send_update r ≡ true) × HasStatus claims status
unfolding select_update_artifact
selected-HasStatus r claims status e h = split (should_send_update r) refl e
  where
    nothing : [] ≡ status → ⊥
    nothing q = not_empty status h (sym q)

    found :
        (o : Result Bytes)
        → extract_ear_status claims ≡ o
        → (selected o).status ≡ status
        → HasStatus claims status
    found (err x) q e = absurd (nothing e)
    found (ok s) q e = extract-HasStatus claims status (q ∙ ap (λ x. ok x) e)

    selected_if : Bool → Selection
    selected_if b =
        if b
        then selected (extract_ear_status claims)
        else record { artifact = none; status = []; failed = false }

    split :
        (b : Bool)
        → should_send_update r ≡ b
        → (selected_if b).status ≡ status
        → (should_send_update r ≡ true) × HasStatus claims status
    split true q e = (q, found (extract_ear_status claims) refl e)
    split false q e = absurd (nothing e)

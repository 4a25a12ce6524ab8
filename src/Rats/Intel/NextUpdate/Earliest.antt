-- ===== src/Rats/Intel/NextUpdate/Earliest.antt =====
-- The expiry of a cache entry (internal/infra/rats/intel_qvl_collateral.go).
use attes_tam.Base.{
  ◌+◌, ◌≡◌, ◌≢◌, refl, ap, sym, subst, ◌++◌, ◌∙◌, Bool, true, false, Option, none, some, List, [],
  ◌∷◌, Bytes, All, bytes_eq, if◌then◌else◌,
}
use attes_tam.Model.{Time}
use attes_tam.Exec.{Result, ok, err}
use attes_tam.Text.{trim_space}
use attes_tam.Rats.Results.{◌>>=◌, required, >>=-eq-ok, required-eq-ok}
use attes_tam.Exec.{ok-injective}
use attes_tam.Rats.Intel.Collateral.{Collateral}
use attes_tam.Rats.Intel.Library.{IntelLibrary}
use attes_tam.Rats.Intel.NextUpdate.{
  if_not_zero, cache_ttl, parse_crl_next_update, parse_timestamp, parse_json_next_update,
  nearest_of, collateral_next_update, earlier, collateral_expiry,
}
use attes_tam.Rats.Intel.NextUpdate.Soonest.{
  NotZero, earliest, soonest, or_zero, if_not_zero-NotZero, if_not_zero-or_zero, read_all, Never,
  nearest_of-soonest, read_all-NotZero, earliest-soonest, earliest-append,
}

-- The timestamp that a JSON payload gives for its next update is not the zero time.
abbrev pub NamesTime : IntelLibrary → Bytes → Type 0
NamesTime lib raw =
    (timestamp : Bytes) (t : Time)
    → lib.decode_next_update raw ≡ some timestamp
    → lib.parse_rfc3339 timestamp ≡ some t
    → t ≢ 0

module _ (lib : IntelLibrary) where
  crl-Never : (raw : Bytes) → Never (parse_crl_next_update lib) raw
  unfolding parse_crl_next_update
  crl-Never [] o e = subst NotZero (ok-injective none o e) tt
  crl-Never (b ∷ raw) o e =
      let (t, (_, last)) = >>=-eq-ok (required (lib.parse_revocation_list (b ∷ raw))) _ o e in
      subst NotZero (ok-injective (if_not_zero t) o last) (if_not_zero-NotZero t)

  timestamp-Never :
      (s : Bytes)
      → ((t : Time) → lib.parse_rfc3339 s ≡ some t → t ≢ 0)
      → Never (parse_timestamp lib) s
  timestamp-Never s names o = split (bytes_eq (trim_space s) [])
    where
      split :
          (b : Bool)
          → (if b then ok none else required (lib.parse_rfc3339 s) >>= λ next. ok (some next))
            ≡ ok o
          → NotZero o
      split true e = subst NotZero (ok-injective none o e) tt
      split false e =
          let (t, (q, last)) = >>=-eq-ok (required (lib.parse_rfc3339 s)) _ o e in
          subst NotZero (ok-injective (some t) o last)
            (names t (required-eq-ok (lib.parse_rfc3339 s) t q))

  json-Never : (raw : Bytes) → NamesTime lib raw → Never (parse_json_next_update lib) raw
  unfolding parse_json_next_update
  json-Never [] names o e = subst NotZero (ok-injective none o e) tt
  json-Never (b ∷ raw) names o e =
      let (s, (decoded, last)) = >>=-eq-ok (required (lib.decode_next_update (b ∷ raw))) _ o e in
      timestamp-Never s
        (λ t p. names s t (required-eq-ok (lib.decode_next_update (b ∷ raw)) s decoded) p) o last

  -- The end of collateral_expiry, after both loops.
  ended :
      (now : Time) (os js : List (Option Time))
      → NotZero (soonest (soonest none os) js)
      → earlier (now + cache_ttl) (if_not_zero (or_zero (soonest (soonest none os) js)))
        ≡ earliest (now + cache_ttl) (os ++ js)
  ended now os js h = rw (if_not_zero-or_zero (soonest (soonest none os) js) h) (
      earliest-soonest (now + cache_ttl) (soonest none os) js
      ∙ (ap (λ t. earliest t js) (earliest-soonest (now + cache_ttl) none os)
          ∙ sym (earliest-append (now + cache_ttl) os js)))

  -- The entry's expiry is the least of the time a week from now and the next updates that the
  -- revocation lists, the TCB info and the QE identity name, and an error if one of these cannot be
  -- read, if neither the TCB info nor the QE identity names the zero time.
  pub collateral_expiry-earliest :
      (c : Collateral) (now : Time)
      → NamesTime lib c.tcb_info
      → NamesTime lib c.qe_identity
      → collateral_expiry lib c now ≡ (do
        crls ← read_all (parse_crl_next_update lib) (c.root_ca_crl ∷ c.pck_crl ∷ [])
        jsons ← read_all (parse_json_next_update lib) (c.tcb_info ∷ c.qe_identity ∷ [])
        ok (earliest (now + cache_ttl) (crls ++ jsons)))
  unfolding collateral_expiry collateral_next_update
  collateral_expiry-earliest c now tcb qe =
      rw (nearest_of-soonest crl none crls crls_never tt) (first (read_all crl crls) refl)
    where
      crl : Bytes → Result (Option Time)
      crl = parse_crl_next_update lib

      json : Bytes → Result (Option Time)
      json = parse_json_next_update lib

      crls : List Bytes
      crls = c.root_ca_crl ∷ c.pck_crl ∷ []

      crls_never : All (Never crl) crls
      crls_never = (crl-Never c.root_ca_crl, (crl-Never c.pck_crl, tt))

      jsons : List Bytes
      jsons = c.tcb_info ∷ c.qe_identity ∷ []

      jsons_never : All (Never json) jsons
      jsons_never = (json-Never c.tcb_info tcb, (json-Never c.qe_identity qe, tt))

      limit : Time
      limit = now + cache_ttl

      second :
          (os : List (Option Time)) (r : Result (List (Option Time)))
          → NotZero (soonest none os)
          → read_all json jsons ≡ r
          → (((r >>= λ js. ok (or_zero (soonest (soonest none os) js))) >>= λ nearest.
                ok (if_not_zero nearest))
              >>= λ next. ok (earlier limit next))
            ≡ (r >>= λ js. ok (earliest limit (os ++ js)))
      second os (err e) h q = refl
      second os (ok js) h q =
          ap (λ t. ok t)
            (ended now os js (read_all-NotZero json (soonest none os) jsons js jsons_never h q))

      first :
          (r : Result (List (Option Time)))
          → read_all crl crls ≡ r
          → (((r >>= λ os. ok (or_zero (soonest none os))) >>= λ nearest.
                nearest_of json nearest jsons >>= λ n. ok (if_not_zero n))
              >>= λ next. ok (earlier limit next))
            ≡ (r >>= λ os. read_all json jsons >>= λ js. ok (earliest limit (os ++ js)))
      first (err e) q = refl
      first (ok os) q =
          let h = read_all-NotZero crl none crls os crls_never tt q in
          rw (nearest_of-soonest json (soonest none os) jsons jsons_never h)
            (second os (read_all json jsons) h refl)

-- ===== src/Rats/Intel/NextUpdate.antt =====
-- When collateral ceases to be valid: intelQVLQuoteCollateralNextUpdate of
-- internal/infra/rats/intel_qvl_pcs.go and intelQVLQuoteCollateralExpiry of intel_qvl_collateral.go.
pub mod Soonest
pub mod Earliest
use attes_tam.Base.{
  ℕ, ◌+◌, ◌*◌, ◌||◌, Option, none, some, List, [], ◌∷◌, Bytes, bytes_eq, ltb, ◌==◌, if◌then◌else◌,
}
use attes_tam.Model.{Time, second, zero_time}
use attes_tam.Exec.{Result, ok}
use attes_tam.Text.{trim_space}
use attes_tam.Rats.Results.{◌>>=◌, required}
use attes_tam.Rats.Intel.Collateral.{Collateral}
use attes_tam.Rats.Intel.Library.{IntelLibrary}

-- The loop's body, for a result that is `ok` or not. The zero time stands for none so far.
abbrev pub nearer : Time → Option Time → Time
nearer nearest none = nearest
nearer nearest (some next) = if (nearest == zero_time) || ltb next nearest then next else nearest

abbrev pub if_not_zero : Time → Option Time
if_not_zero t = if t == zero_time then none else some t

-- intelQVLCollateralCacheTTL
abbrev pub cache_ttl : ℕ
cache_ttl = 7 * 24 * 3600 * second

-- Both loops, with what reads one payload.
unfoldable pub nearest_of : (Bytes → Result (Option Time)) → Time → List Bytes → Result Time
nearest_of read nearest [] = ok nearest
nearest_of read nearest (raw ∷ payloads) =
    read raw >>= λ next. nearest_of read (nearer nearest next) payloads

abbrev pub earlier : Time → Option Time → Time
earlier candidate none = candidate
earlier candidate (some next) = if ltb next candidate then next else candidate

module _ (lib : IntelLibrary) where
  unfoldable pub parse_crl_next_update : Bytes → Result (Option Time)
  parse_crl_next_update [] = ok none
  parse_crl_next_update (b ∷ raw) = do
    next ← required (lib.parse_revocation_list (b ∷ raw))
    ok (if_not_zero next)

  abbrev pub parse_timestamp : Bytes → Result (Option Time)
  parse_timestamp timestamp =
      if bytes_eq (trim_space timestamp) []
      then ok none
      else (do next ← required (lib.parse_rfc3339 timestamp); ok (some next))

  unfoldable pub parse_json_next_update : Bytes → Result (Option Time)
  unfolding bytes_eq trim_space
  parse_json_next_update [] = ok none
  parse_json_next_update (b ∷ raw) = do
    timestamp ← required (lib.decode_next_update (b ∷ raw))
    parse_timestamp timestamp

  unfoldable pub collateral_next_update : Collateral → Result (Option Time)
  unfolding nearest_of parse_crl_next_update parse_json_next_update
  collateral_next_update c = do
    crls ← nearest_of parse_crl_next_update zero_time (c.root_ca_crl ∷ c.pck_crl ∷ [])
    nearest ← nearest_of parse_json_next_update crls (c.tcb_info ∷ c.qe_identity ∷ [])
    ok (if_not_zero nearest)

  unfoldable pub collateral_expiry : Collateral → Time → Result Time
  unfolding collateral_next_update
  collateral_expiry c now = do next ← collateral_next_update c; ok (earlier (now + cache_ttl) next)

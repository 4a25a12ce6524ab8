-- ===== src/Tam/Resolve/Reports.antt =====
-- What the TAM makes of the SUIT reports in an Error message (internal/tam/tam.go).
use attes_tam.Base.{
  ◌≡◌, refl, Bool, true, false, ◌&&◌, Option, none, some, List, [], ◌∷◌, Bytes, All, ℕ,
}
use attes_tam.Exec.{ok, World, Exec, pure, if_some, ◌>>=◌}
use attes_tam.Teep.Message.{Message}
use attes_tam.Teep.Report.{Report}
use attes_tam.Tam.Library.{Library}
use attes_tam.Tam.Resolve.{
  reports_success, is_well_formed, handle_report, handle_reports, resolve_error,
}

-- The bytes are no report that says that its manifest was processed.
abbrev pub SaysNoSuccess : {Key : Type 0} → Library Key → Bytes → Type 0
SaysNoSuccess lib bytes =
    (r : Report) → lib.decode_report bytes ≡ some r → reports_success r ≡ false

module _ {Key : Type 0} (lib : Library Key) (reflect : Option Bytes → Bytes → Exec ℕ) where
  passed_over :
      (o : Option Report) (bytes : Bytes)
      → lib.decode_report bytes ≡ o
      → SaysNoSuccess lib bytes
      → handle_report lib reflect bytes ≡ pure tt
  unfolding handle_report if_some
  passed_over none bytes e h = rw e refl
  passed_over (some r) bytes e h = rw (e, h r e, and_false (is_well_formed r.reference.digest)) refl
    where
      and_false : (b : Bool) → (b && false) ≡ false
      and_false true = refl
      and_false false = refl

  handle_reports-passes :
      (reports : List Bytes) (w : World)
      → All (SaysNoSuccess lib) reports
      → handle_reports lib reflect reports w ≡ (ok tt, w)
  unfolding handle_reports pure ◌>>=◌
  handle_reports-passes [] w h = refl
  handle_reports-passes (r ∷ rs) w h =
      rw (passed_over (lib.decode_report r) r refl h.0) (handle_reports-passes rs w h.1)

-- An Error message leaves no trace of the manifests that failed: if none of its reports says that
-- its manifest was processed, the database stays as it is (and the rest of the world), though the
-- message is from a known agent and answers a message of the TAM.
pub failure_reports_are_lost :
    {Key : Type 0} (lib : Library Key) (incoming sent : Message) (kid : Bytes) (w : World)
    → All (SaysNoSuccess lib) incoming.options.suit_reports
    → resolve_error lib incoming (some kid) (some sent) w ≡ (ok none, w)
unfolding resolve_error if_some pure ◌>>=◌
failure_reports_are_lost lib incoming sent kid w h =
    rw (handle_reports-passes lib _ incoming.options.suit_reports w h) refl

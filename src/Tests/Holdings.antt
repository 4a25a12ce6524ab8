-- ===== src/Tests/Holdings.antt =====
-- An agent that attests its key and reports two versions of a component, and what it then holds.
use attes_tam.Base.{
  ℕ, ◌≡◌, refl, ◌≤◌, true, false, map, none, some, [], ◌∷◌, ◌++◌, Bytes, ◌==◌, replicate, length,
  if◌then◌else◌,
}
use attes_tam.Base.Int.{negsuc}
use attes_tam.Model.{Db, Holding, create_schema}
use attes_tam.Exec.{World}
use attes_tam.Text.{text}
use attes_tam.Teep.Message.{no_options}
use attes_tam.Teep.Report.{Report}
use attes_tam.Sqlite.Parties.{create_signing_key}
use attes_tam.Sqlite.Statuses.{is_replaced}
use attes_tam.Sqlite.Statuses.Reflected.{count}
use attes_tam.Tam.Library.{Library}
use attes_tam.Tam.Repository.{set_envelope}
use attes_tam.Tam.Resolve.{resolve_teep_message}
use attes_tam.Tam.System.{Reach, here, next, runs, teep_message, envelope, new_signing_key}
use attes_tam.Tam.Single.{reachable-IsSingle}
use attes_tam.Tests.Setup.{codec, encode_array, library, tam, agent_kid, signer, noon}
use attes_tam.Tests.Worlds.{component}
use attes_tam.Tests.Everything.{everything}

abbrev digest_of : ℕ → Bytes
digest_of version = replicate 32 version

-- The report, which names the version, is the digest's byte.
abbrev report_of : Bytes → Report
report_of version = record {
  reference = record {
    manifest_uri = [];
    digest = record {
      digest_alg = negsuc 15;
      digest_bytes = elim version [ [] ↦ [] | v ∷ _ ↦ digest_of v ];
    };
  };
  nonce = none;
  result = record { is_true = some true; detailed_result = none };
}

-- A message with a token of one byte has a payload; a message reports the version that its token
-- ends in.
abbrev reporting : Library Bytes
reporting = record library {
  codec = record codec {
    decode_options = λ b. some (
        if length b == 1
        then record no_options {
          token = some b;
          attestation_payload = some (replicate 32 3 ++ 1 ∷ 2 ∷ []);
          attestation_payload_format = some (text "application/eat+cwt");
        }
        else record no_options {
          token = some b;
          suit_reports = elim b [ _ ∷ v ∷ _ ↦ (v ∷ []) ∷ [] | _ ↦ [] ];
        });
  };
  decode_report = λ b. some (report_of b);
}

abbrev at : Db → Bytes → World
at d random = record { db = d; now = noon; random = random ∷ []; faults = [] }

abbrev resolved : Bytes → World → Db
resolved body w = (resolve_teep_message reporting tam body w).1.db

abbrev said : ℕ → Bytes → Bytes
said type token = agent_kid ++ encode_array ((type ∷ []) ∷ token ∷ [])

-- The first version is reported with the token that ends in 1, the second with that which ends in 2.
abbrev trusting : World
trusting = at create_schema []

abbrev registering : World
registering = at (create_signing_key signer trusting).1.db []

abbrev registering_again : World
registering_again =
    at (set_envelope (some (50 ∷ [])) (digest_of 1) (replicate 32 9) component 1 registering).1.db
      []

abbrev meeting : World
meeting =
    at
      (set_envelope (some (51 ∷ [])) (digest_of 2) (replicate 32 9) component 2
        registering_again).1.db
      (7 ∷ 7 ∷ [])

abbrev challenging : World
challenging = at (resolved [] meeting) (1 ∷ 2 ∷ [])

abbrev attesting : World
attesting = at (resolved (said 2 (7 ∷ 7 ∷ [])) challenging) (8 ∷ 8 ∷ [])

abbrev asking : World
asking = at (resolved (said 2 (5 ∷ [])) attesting) (4 ∷ 1 ∷ [])

abbrev reporting_first : World
reporting_first = at (resolved [] asking) []

abbrev asking_again : World
asking_again = at (resolved (said 5 (4 ∷ 1 ∷ [])) reporting_first) (4 ∷ 2 ∷ [])

abbrev reporting_second : World
reporting_second = at (resolved [] asking_again) []

abbrev holding : Db
holding = resolved (said 5 (4 ∷ 2 ∷ [])) reporting_second

abbrev reached : Reach reporting tam create_schema holding
reached =
    next
      (next
        (next
          (next
            (next
              (next
                (next
                  (next
                    (next (next here (new_signing_key signer (runs trusting refl refl))) (
                      envelope (some (50 ∷ [])) (digest_of 1) (replicate 32 9) component 1
                        (runs registering refl refl)))
                    (envelope (some (51 ∷ [])) (digest_of 2) (replicate 32 9) component 2
                      (runs registering_again refl refl)))
                  (teep_message [] (runs meeting refl refl)))
                (teep_message (said 2 (7 ∷ 7 ∷ [])) (runs challenging refl refl)))
              (teep_message (said 2 (5 ∷ [])) (runs attesting refl refl)))
            (teep_message [] (runs asking refl refl)))
          (teep_message (said 5 (4 ∷ 1 ∷ [])) (runs reporting_first refl refl)))
        (teep_message [] (runs asking_again refl refl)))
      (teep_message (said 5 (4 ∷ 2 ∷ [])) (runs reporting_second refl refl))

-- The second report replaces the first holding.
replaced : map (λ (h : Holding). h.deleted) holding.holdings.rows ≡ true ∷ false ∷ []
unfolding everything
replaced = refl

reachable-IsSingle_example :
    count (is_replaced 1 component holding.suit_manifests.rows) holding.holdings.rows ≤ 1
reachable-IsSingle_example = reachable-IsSingle reporting tam holding reached 1 component

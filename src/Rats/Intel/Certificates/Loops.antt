-- ===== src/Rats/Intel/Certificates/Loops.antt =====
-- The two loops over the blocks of a PEM chain (internal/infra/rats/intel_qvl_pcs.go).
use attes_tam.Base.{
  ℕ, zero, suc, ◌<◌, ◌≡◌, refl, ap, sym, ◌∙◌, Bool, true, false, Option, none, some, List, [], ◌∷◌,
  ◌++◌, Bytes, bytes_eq, length, arith, if◌then◌else◌,
}
use attes_tam.Exec.{Result, ok, err}
use attes_tam.Text.{text}
use attes_tam.Rats.Results.{◌>>=◌, required}
use attes_tam.Rats.Intel.Library.{PemBlock, Certificate, IntelLibrary}
use attes_tam.Rats.Intel.Certificates.{
  last_round, last_from, last_certificate_from_pem, collect_round, collect_from,
}

-- What pem.Decode leaves is shorter than what it is given.
abbrev pub Consumes : IntelLibrary → Type 0
Consumes lib =
    (raw rest : Bytes) (block : PemBlock)
    → lib.pem_decode raw ≡ some (block, rest)
    → length rest < length raw

abbrev pub last_of : List Certificate → Option Certificate
last_of [] = none
last_of (c ∷ []) = some c
last_of (c ∷ d ∷ certs) = last_of (d ∷ certs)

last_of-append : (certs : List Certificate) (c : Certificate) → last_of (certs ++ c ∷ []) ≡ some c
last_of-append [] c = refl
last_of-append (d ∷ []) c = refl
last_of-append (d ∷ e ∷ certs) c = last_of-append (e ∷ certs) c

module _ (lib : IntelLibrary) where
  -- The loops in step: one keeps the last certificate, the other all.
  last_from-collect_from :
      (fuel : ℕ) (certs : List Certificate) (rest : Bytes)
      → last_from lib fuel (last_of certs) rest
        ≡ (collect_from lib fuel certs rest >>= λ cs. ok (last_of cs))
  unfolding last_from collect_from
  last_from-collect_from zero certs rest = refl
  last_from-collect_from (suc fuel) certs [] = refl
  last_from-collect_from (suc fuel) certs (b ∷ rest) =
      round (lib.pem_decode (b ∷ rest)) (last_from-collect_from fuel)
    where
      InStep : Type 0
      InStep =
          (certs : List Certificate) (rest : Bytes)
          → last_from lib fuel (last_of certs) rest
            ≡ (collect_from lib fuel certs rest >>= λ cs. ok (last_of cs))

      parsed :
          (o : Option Certificate) (rest : Bytes)
          → InStep
          → (required o >>= λ cert. last_from lib fuel (some cert) rest) ≡ (
              (required o >>= λ cert. collect_from lib fuel (certs ++ cert ∷ []) rest) >>= λ cs.
              ok (last_of cs))
      parsed none rest again = refl
      parsed (some c) rest again =
          ap (λ l. last_from lib fuel l rest) (sym (last_of-append certs c))
          ∙ again (certs ++ c ∷ []) rest

      branch :
          (kind : Bool) (o : Option Certificate) (rest : Bytes)
          → InStep
          → (if kind
              then (required o >>= λ cert. last_from lib fuel (some cert) rest)
              else last_from lib fuel (last_of certs) rest)
            ≡ ((if kind
                  then (required o >>= λ cert. collect_from lib fuel (certs ++ cert ∷ []) rest)
                  else collect_from lib fuel certs rest)
                >>= λ cs. ok (last_of cs))
      branch true o rest again = parsed o rest again
      branch false o rest again = again certs rest

      round :
          (o : Option (PemBlock × Bytes))
          → InStep
          → last_round lib o (last_of certs) (last_from lib fuel)
            ≡ (collect_round lib o certs (collect_from lib fuel) >>= λ cs. ok (last_of cs))
      round none again = refl
      round (some (block, rest)) again =
          branch (bytes_eq block.kind (text "CERTIFICATE")) (lib.parse_certificate block.bytes) rest
            again

  -- The fuel is enough: more changes nothing.
  pub collect_from-fuel :
      Consumes lib
      → (fuel more : ℕ) (certs : List Certificate) (rest : Bytes) → length rest < fuel
      → length rest < more
      → collect_from lib fuel certs rest ≡ collect_from lib more certs rest
  unfolding collect_from
  collect_from-fuel consumes zero more certs rest h k = absurd (omega arith)
  collect_from-fuel consumes (suc fuel) zero certs rest h k = absurd (omega arith)
  collect_from-fuel consumes (suc fuel) (suc more) certs [] h k = refl
  collect_from-fuel consumes (suc fuel) (suc more) certs (b ∷ rest) h k =
      round (lib.pem_decode (b ∷ rest)) refl (collect_from-fuel consumes fuel more)
    where
      Agree : Type 0
      Agree =
          (certs : List Certificate) (rest : Bytes)
          → length rest < fuel
          → length rest < more
          → collect_from lib fuel certs rest ≡ collect_from lib more certs rest

      branch :
          (kind : Bool) (o : Option Certificate) (left : Bytes)
          → length left < fuel
          → length left < more
          → Agree
          → (if kind
              then (required o >>= λ cert. collect_from lib fuel (certs ++ cert ∷ []) left)
              else collect_from lib fuel certs left)
            ≡ (if kind
                then (required o >>= λ cert. collect_from lib more (certs ++ cert ∷ []) left)
                else collect_from lib more certs left)
      branch true none left p q again = refl
      branch true (some c) left p q again = again (certs ++ c ∷ []) left p q
      branch false o left p q again = again certs left p q

      round :
          (o : Option (PemBlock × Bytes))
          → lib.pem_decode (b ∷ rest) ≡ o
          → Agree
          → collect_round lib o certs (collect_from lib fuel)
            ≡ collect_round lib o certs (collect_from lib more)
      round none e again = refl
      round (some (block, left)) e again =
          let less = consumes (b ∷ rest) left block e in
          branch (bytes_eq block.kind (text "CERTIFICATE")) (lib.parse_certificate block.bytes) left
            (omega (arith, less)) (omega (arith, less)) again

-- lastCertificateFromPEM returns the last of the certificates that the loop of
-- parseIntelQVLQuoteCertificates collects, fails if there is none or as that loop fails, and needs
-- no more rounds than the chain has bytes: any fuel above that number gives the same.
pub last_certificate-collect_from :
    (lib : IntelLibrary) (chain : Bytes) (fuel : ℕ)
    → Consumes lib
    → length chain < fuel
    → last_certificate_from_pem lib chain
      ≡ (collect_from lib fuel [] chain >>= λ certs. required (last_of certs))
unfolding last_certificate_from_pem
last_certificate-collect_from lib chain fuel consumes h =
    rw (last_from-collect_from lib (suc (length chain)) [] chain) (
      step (collect_from lib (suc (length chain)) [] chain)
      ∙ ap (λ r. r >>= λ certs. required (last_of certs))
          (collect_from-fuel lib consumes (suc (length chain)) fuel [] chain (omega arith) h))
  where
    step :
        (r : Result (List Certificate))
        → ((r >>= λ cs. ok (last_of cs)) >>= required) ≡ (r >>= λ certs. required (last_of certs))
    step (err e) = refl
    step (ok cs) = refl

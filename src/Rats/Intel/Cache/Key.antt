-- ===== src/Rats/Intel/Cache/Key.antt =====
-- The names of the files in the cache (internal/infra/rats/intel_qvl_collateral.go).
use attes_tam.Base.{
  ℕ, ◌/◌, ◌%◌, ◌<◌, ◌≡◌, refl, ap, sym, ◌∙◌, Bool, true, false, [], ◌∷◌, ◌++◌, Bytes, length, All,
  not, some, ◌==◌, arith, if◌then◌else◌,
}
use attes_tam.Model.{other}
use attes_tam.Exec.{ok, err}
use mathlib.Core.List.{append_cancel_left, append_cancel_right}
use attes_tam.Text.{text, lower, to_lower, hex_digit, hex}
use attes_tam.Rats.Results.{required, refuse_if, >>=-eq-ok, required-eq-ok}
use attes_tam.Exec.{ok-injective}
use attes_tam.Rats.Intel.Library.{IntelLibrary}
use attes_tam.Rats.Intel.Certificates.{extract_quote_pck_ca}
use attes_tam.Rats.Intel.Pcs.{extract_fmspc, fmspc_cache_key_value}
use attes_tam.Rats.Intel.Cache.{cache_key, path_for_quote}

-- Bytes, not arbitrary numbers.
abbrev pub AreBytes : Bytes → Type 0
AreBytes = All (λ b. b < 256)

lower-hex_digit : (d : ℕ) → d < 16 → lower (hex_digit d) ≡ hex_digit d
unfolding lower
lower-hex_digit d h = ground arith

hex_digit_inj : (a b : ℕ) → a < 16 → b < 16 → hex_digit a ≡ hex_digit b → a ≡ b
hex_digit_inj a b h k e = ground arith

to_lower-hex : (s : Bytes) → AreBytes s → to_lower (hex s) ≡ hex s
unfolding to_lower hex
to_lower-hex [] h = refl
to_lower-hex (b ∷ s) h =
    rw
      (
        lower-hex_digit (b / 16) (omega arith),
        lower-hex_digit (b % 16) (omega arith),
        to_lower-hex s h.1,
      )
      refl

-- Of two texts that begin with the digits of equally many bytes.
pub hex_inj :
    (s t : Bytes) (x y : Bytes)
    → length s ≡ length t
    → AreBytes s
    → AreBytes t
    → hex s ++ x ≡ hex t ++ y
    → (s ≡ t) × (x ≡ y)
unfolding hex
hex_inj [] [] x y n h k e = (refl, e)
hex_inj [] (_ ∷ _) x y n h k e = absurd (omega arith)
hex_inj (_ ∷ _) [] x y n h k e = absurd (omega arith)
hex_inj (b ∷ s) (c ∷ t) x y n h k e =
    let (rest, same) = hex_inj s t x y (omega arith) h.1 k.1 (ap (λ l. tail (tail l)) e) in
    let high = hex_digit_inj (b / 16) (c / 16) (omega arith) (omega arith) (ap head e) in
    let low =
      hex_digit_inj (b % 16) (c % 16) (omega arith) (omega arith) (ap (λ l. head (tail l)) e) in
    let byte : b ≡ c = omega arith in (cc, same)
  where
    head : Bytes → ℕ
    head [] = 0
    head (x ∷ _) = x

    tail : Bytes → Bytes
    tail [] = []
    tail (_ ∷ xs) = xs

-- What the native library returns for an FMSPC are bytes.
abbrev pub GivesBytes : IntelLibrary → Type 0
GivesBytes lib = (quote fmspc : Bytes) → lib.fmspc_from_quote quote ≡ some fmspc → AreBytes fmspc

abbrev key_of : Bytes → Bytes → Bytes
key_of fmspc ca = text "fmspc-" ++ (to_lower (hex fmspc) ++ (text "-pckca-" ++ ca))

-- The platform that a file is named for.
record IsNamed (lib : IntelLibrary) (quote key : Bytes) : Type 0 where
  fmspc : Bytes
  ca : Bytes
  is_fmspc : extract_fmspc lib quote ≡ ok fmspc
  is_ca : extract_quote_pck_ca lib quote ≡ ok ca
  is_native : lib.fmspc_from_quote quote ≡ some fmspc
  is_whole : length fmspc ≡ 6
  is_key : key ≡ key_of fmspc ca

value_of :
    (fmspc value : Bytes)
    → fmspc_cache_key_value fmspc ≡ ok value
    → (length fmspc ≡ 6) × (value ≡ to_lower (hex fmspc))
unfolding fmspc_cache_key_value
value_of fmspc value h = split (length fmspc == 6) refl h
  where
    split :
        (b : Bool)
        → (length fmspc == 6) ≡ b
        → (if b then ok (to_lower (hex fmspc)) else err other) ≡ ok value
        → (length fmspc ≡ 6) × (value ≡ to_lower (hex fmspc))
    split true e k = (ground arith, sym (ok-injective (to_lower (hex fmspc)) value k))
    split false e k = cc

native_of :
    (lib : IntelLibrary) (quote fmspc : Bytes)
    → extract_fmspc lib quote ≡ ok fmspc
    → lib.fmspc_from_quote quote ≡ some fmspc
unfolding extract_fmspc
native_of lib [] fmspc h = cc
native_of lib (b ∷ quote) fmspc h =
    let (f, (given, rest)) = >>=-eq-ok (required (lib.fmspc_from_quote (b ∷ quote))) _ fmspc h in
    let (u, (sized, last)) = >>=-eq-ok (refuse_if (not (length f == 6))) _ fmspc rest in
    required-eq-ok (lib.fmspc_from_quote (b ∷ quote)) f given
    ∙ ap (λ x. some x) (ok-injective f fmspc last)

cache_key-IsNamed :
    (lib : IntelLibrary) (quote key : Bytes) → cache_key lib quote ≡ ok key → IsNamed lib quote key
unfolding cache_key
cache_key-IsNamed lib [] key h = cc
cache_key-IsNamed lib (b ∷ quote) key h =
    let (fmspc, (taken, rest)) = >>=-eq-ok (extract_fmspc lib (b ∷ quote)) _ key h in
    let (value, (printed, rest')) = >>=-eq-ok (fmspc_cache_key_value fmspc) _ key rest in
    let (ca, (issued, last)) = >>=-eq-ok (extract_quote_pck_ca lib (b ∷ quote)) _ key rest' in
    let (whole, digits) = value_of fmspc value printed in
    record {
      fmspc = fmspc;
      ca = ca;
      is_fmspc = taken;
      is_ca = issued;
      is_native = native_of lib (b ∷ quote) fmspc taken;
      is_whole = whole;
      is_key =
          sym (ok-injective (text "fmspc-" ++ (value ++ (text "-pckca-" ++ ca))) key last)
          ∙ ap (λ v. text "fmspc-" ++ (v ++ (text "-pckca-" ++ ca))) digits;
    }

key_of_inj :
    (f g x y : Bytes)
    → length f ≡ 6
    → length g ≡ 6
    → AreBytes f
    → AreBytes g
    → key_of f x ≡ key_of g y
    → (f ≡ g) × (x ≡ y)
key_of_inj f g x y m n h k e =
    let digits =
      rw (to_lower-hex f h, to_lower-hex g k) at
        (append_cancel_left (text "fmspc-") (to_lower (hex f) ++ (text "-pckca-" ++ x)) _ e) in
    let (same, rest) =
      hex_inj f g (text "-pckca-" ++ x) (text "-pckca-" ++ y) (m ∙ sym n) h k digits in
    (same, append_cancel_left (text "-pckca-") x y rest)

-- Two quotes share a file of the cache only if they are of platforms with one FMSPC and one PCK CA.
pub path_for_quote_inj :
    (lib : IntelLibrary) (quote sibling path : Bytes)
    → GivesBytes lib
    → path_for_quote lib quote ≡ ok path
    → path_for_quote lib sibling ≡ ok path
    → (extract_fmspc lib quote ≡ extract_fmspc lib sibling)
      × (extract_quote_pck_ca lib quote ≡ extract_quote_pck_ca lib sibling)
unfolding path_for_quote
path_for_quote_inj lib quote sibling path gives h k =
    let (key, (keyed, last)) = >>=-eq-ok (cache_key lib quote) _ path h in
    let (key', (keyed', last')) = >>=-eq-ok (cache_key lib sibling) _ path k in
    let a = cache_key-IsNamed lib quote key keyed in
    let b = cache_key-IsNamed lib sibling key' keyed' in
    let same = append_cancel_right key key' (text ".bin") (
      ok-injective (key ++ text ".bin") path last
      ∙ sym (ok-injective (key' ++ text ".bin") path last')) in
    let (f, c) =
      key_of_inj a.fmspc b.fmspc a.ca b.ca a.is_whole b.is_whole (gives quote a.fmspc a.is_native)
        (gives sibling b.fmspc b.is_native) (sym a.is_key ∙ (same ∙ b.is_key)) in
    (a.is_fmspc ∙ (ap (λ x. ok x) f ∙ sym b.is_fmspc), a.is_ca ∙ (ap (λ x. ok x) c ∙ sym b.is_ca))

-- ===== src/Rats/Quote/Ends.antt =====
-- What the reading of a quote may end in (internal/infra/rats/intel_qvl_quote.go).
use attes_tam.Base.{
  ℕ, zero, suc, ◌+◌, ◌-◌, ◌≤◌, ◌≡◌, refl, Bool, true, false, [], ◌∷◌, Bytes, length, take, drop,
  ltb, arith, if◌then◌else◌,
}
use attes_tam.Rats.Quote.{
  Outcome, bytes_read, refused, panic, slice, number_or_panic, slice_or_panic,
}

pub length-take : (n : ℕ) (xs : Bytes) → n ≤ length xs → length (take n xs) ≡ n
length-take zero xs h = refl
length-take (suc n) [] h = omega arith
length-take (suc n) (x ∷ xs) h = omega (arith, length-take n xs)

pub length-drop : (n : ℕ) (xs : Bytes) → length (drop n xs) ≡ length xs - n
length-drop zero xs = omega arith
length-drop (suc n) [] = omega arith
length-drop (suc n) (x ∷ xs) = omega (arith, length-drop n xs)

-- No panic, and bytes with `P`.
abbrev pub Ends : (Bytes → Type 0) → Outcome → Type 0
Ends P (bytes_read bytes) = P bytes
Ends P refused = Unit
Ends P panic = ⊥

pub not_shorter : (n a : ℕ) → ltb n a ≡ false → a ≤ n
not_shorter n a h = ground arith

pub shorter : (n a b : ℕ) → a ≤ b → ltb n b ≡ false → ltb n a ≡ false
shorter n a b h e = ground arith

pub length-slice :
    (from size : ℕ) (quote : Bytes)
    → ltb (length quote) (from + size) ≡ false
    → length (take size (drop from quote)) ≡ size
length-slice from size quote h =
    let fits = not_shorter (length quote) (from + size) h in
    length-take size (drop from quote) (omega (arith, length-drop from quote))

module _ (P : Bytes → Type 0) where
  pub slice-Ends :
      (from size : ℕ) (quote : Bytes)
      → ltb (length quote) (from + size) ≡ false
      → P (take size (drop from quote))
      → Ends P (slice_or_panic (slice from size quote))
  unfolding slice
  slice-Ends from size quote h p = rw h p

  pub number-Ends :
      (from size : ℕ) (quote : Bytes) (f : ℕ → Outcome)
      → ltb (length quote) (from + size) ≡ false
      → ((n : ℕ) → Ends P (f n))
      → Ends P (number_or_panic (slice from size quote) f)
  unfolding slice
  number-Ends from size quote f h k = rw h (k _)

  pub if-Ends :
      (b : Bool) (x y : Outcome)
      → (b ≡ true → Ends P x)
      → (b ≡ false → Ends P y)
      → Ends P (if b then x else y)
  if-Ends true x y hx hy = hx refl
  if-Ends false x y hx hy = hy refl

-- ===== src/Decimal/Parse.antt =====
-- What a text of digits is read as.
use f.Prelude.{
  ℕ, ◌+◌, ◌-◌, ◌*◌, ◌≤◌, ◌≡◌, ◌≢◌, refl, List, [], ◌∷◌, arith, All, leb, if◌then◌else◌, nat_beq,
  false,
}
use f.Decimal.{parsed, pos_overflow, scan, parse}

abbrev pub IsDigit : ℕ → Type 0
IsDigit c = (b'0' ≤ c) × (c ≤ b'9')

-- The number that the digits spell behind `n`, with no bound.
unfoldable pub value : ℕ → List ℕ → ℕ
value n [] = n
value n (c ∷ s) = value (n * 10 + (c - b'0')) s

le-value : (s : List ℕ) (n : ℕ) → n ≤ value n s
unfolding value
le-value [] n = omega arith
le-value (c ∷ s) n = omega (arith, le-value s (n * 10 + (c - b'0')))

scan_exact :
    (max : ℕ) (s : List ℕ) (n : ℕ)
    → All IsDigit s
    → n ≤ max
    → scan max s n ≡ (if leb (value n s) max then parsed (value n s) else pos_overflow)
unfolding scan value
scan_exact max [] n all fits = ground arith
scan_exact max (c ∷ s) n (hc, hs) fits =
    let m = n * 10 + (c - b'0') in ground (arith, scan_exact max s m hs, le-value s m)

-- A text of one digit or more is read as the number that it spells, exactly, where this is at most the
-- greatest value of the type, and is an overflow otherwise.
pub parse_digits :
    (max : ℕ) (s : List ℕ)
    → s ≢ []
    → All IsDigit s
    → parse max s ≡ (if leb (value 0 s) max then parsed (value 0 s) else pos_overflow)
unfolding parse
parse_digits max [] some all = absurd (some refl)
parse_digits max (c ∷ []) some all = scan_exact max (c ∷ []) 0 all (omega arith)
parse_digits max (c ∷ d ∷ s) some all =
    let no_sign : nat_beq c b'+' ≡ false = ground (arith, all.0.0) in
    rw no_sign (scan_exact max (c ∷ d ∷ s) 0 all (omega arith))

scan_bounded : (max : ℕ) (s : List ℕ) (n r : ℕ) → n ≤ max → scan max s n ≡ parsed r → r ≤ max
unfolding scan
scan_bounded max [] n r fits h = ground (arith, fits)
scan_bounded max (c ∷ s) n r fits h = ground (arith, scan_bounded max s (n * 10 + (c - b'0')) r)

-- A number that is read is at most the greatest value of the type.
pub parse_bounded : (max : ℕ) (s : List ℕ) (r : ℕ) → parse max s ≡ parsed r → r ≤ max
unfolding parse
parse_bounded max [] r h = ground (arith, h)
parse_bounded max (c ∷ []) r h = scan_bounded max (c ∷ []) 0 r (omega arith) h
parse_bounded max (c ∷ d ∷ s) r h = ground (
  arith,
  h,
  scan_bounded max (d ∷ s) 0 r (omega arith),
  scan_bounded max (c ∷ d ∷ s) 0 r (omega arith),
)

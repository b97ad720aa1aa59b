-- ===== src/Decimal/RoundTrip.antt =====
-- What is printed is read back.
use f.Prelude.{
  ℕ, zero, suc, ◌+◌, ◌/◌, ◌%◌, ◌≤◌, ◌<◌, ◌≡◌, ◌≢◌, ◌∙◌, ap, true, false, List, [], ◌∷◌, arith, All,
  leb, Bool-cases, inl, inr,
}
use f.Decimal.{spell, print, parsed, pos_overflow, parse}
use f.Decimal.Parse.{IsDigit, value, parse_digits}

-- What the digits of a number are, in front of others.
record Spells (n : ℕ) (out text : List ℕ) : Type 0 where
  some : text ≢ []
  all : All IsDigit text
  exact : value 0 text ≡ value n out

last_digit : (n : ℕ) (out : List ℕ) → n ≤ 9 → All IsDigit out → Spells n out ((b'0' + n % 10) ∷ out)
unfolding value
last_digit n out small all = record {
  some = cc;
  all = ((omega arith, omega arith), all);
  exact = ap (λ (m : ℕ). value m out) (omega arith);
}

spell-Spells :
    (fuel n : ℕ) (out : List ℕ) → n ≤ fuel → All IsDigit out → Spells n out (spell fuel n out)
unfolding spell value
spell-Spells zero n out h all = last_digit n out (omega arith) all
spell-Spells (suc fuel) n out h all = elim (Bool-cases (leb n 9)) [
  | inl small ↦ rw (spell, small) (last_digit n out (ground arith) all)
  | inr large ↦
      let fewer : n / 10 ≤ fuel = ground arith in
      let v =
        spell-Spells fuel (n / 10) ((b'0' + n % 10) ∷ out) fewer
          ((omega arith, omega arith), all) in
      rw (spell, large)
        (record {
          some = v.some;
          all = v.all;
          exact = v.exact ∙ ap (λ (m : ℕ). value m out) (omega arith);
        })
]

-- Every number that the type holds is read back from its decimal print.
pub parse-print : (max n : ℕ) → n ≤ max → parse max (print n) ≡ parsed n
unfolding print value
parse-print max n fits =
    let v = spell-Spells n n [] (omega arith) tt in
    let fits' : leb (value 0 (print n)) max ≡ true = ground (arith, v.exact) in
    parse_digits max (print n) v.some v.all ∙ rw (fits', v.exact)

-- A number that the type does not hold is an overflow, when its decimal print is read.
pub parse_overflow : (max n : ℕ) → max < n → parse max (print n) ≡ pos_overflow
unfolding print value
parse_overflow max n large =
    let v = spell-Spells n n [] (omega arith) tt in
    let large' : leb (value 0 (print n)) max ≡ false = ground (arith, v.exact) in
    parse_digits max (print n) v.some v.all ∙ rw large'

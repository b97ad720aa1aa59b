-- ===== src/Decimal.antt =====
-- `str::parse` for the unsigned integers, on the bytes of a string, as src/api/mod.rs uses it for a `u64`
-- and src/main.rs for a `usize` and a `u8`, and the decimal print that it reads.
pub mod Parse
pub mod RoundTrip
use Prim.Native.Char.{code}
use Prim.Native.String.{String}
use f.Prelude.{
  ℕ, zero, suc, ◌+◌, ◌-◌, ◌*◌, ◌/◌, ◌%◌, Bool, true, false, ◌||◌, List, [], ◌∷◌, arith, ltb, leb,
  nat_beq, if◌then◌else◌,
}

-- The bytes of an ASCII literal of the source.
abbrev pub ascii : String → List ℕ
ascii String.[] = []
ascii (String.◌∷◌ letter text) = code letter ∷ ascii text

-- `IntErrorKind`, and the number where there is no error
pub data Parsed : Type 0 where
  parsed : ℕ → Parsed
  empty_text invalid_digit pos_overflow : Parsed

-- The digits behind `n`, each with a checked multiplication and a checked addition, for a type whose
-- greatest value is `max`.
unfoldable pub scan : ℕ → List ℕ → ℕ → Parsed
scan max [] n = parsed n
scan max (c ∷ s) n =
    if ltb c b'0' || ltb b'9' c
    then invalid_digit
    else if ltb max (n * 10) || ltb max (n * 10 + (c - b'0'))
    then pos_overflow
    else scan max s (n * 10 + (c - b'0'))

-- `s.parse()`: one sign `+` may stand before the digits, of which there is at least one.
unfoldable pub parse : ℕ → List ℕ → Parsed
unfolding scan
parse max [] = empty_text
parse max (c ∷ []) = scan max (c ∷ []) 0
parse max (c ∷ d ∷ s) = if nat_beq c b'+' then scan max (d ∷ s) 0 else scan max (c ∷ d ∷ s) 0

-- The digits of `n`, in front of others. Each round leaves a tenth, so `n` rounds are fuel enough.
unfoldable pub spell : ℕ → ℕ → List ℕ → List ℕ
spell zero n out = (b'0' + n % 10) ∷ out
spell (suc fuel) n out = elim (leb n 9) [
  | true ↦ (b'0' + n % 10) ∷ out
  | false ↦ spell fuel (n / 10) ((b'0' + n % 10) ∷ out)
]

-- `n.to_string()`
unfoldable pub print : ℕ → List ℕ
unfolding spell
print n = spell n n []

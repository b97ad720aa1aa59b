-- ===== src/Crypto/Hex.antt =====
-- src/crypto/hash.rs and src/address.rs: the hexadecimal text of a hash and of an address. The number of
-- bytes, 32 or 20, is the first argument of what the two have in common.
use f.Prelude.{
  ℕ, zero, suc, ◌+◌, ◌-◌, ◌*◌, ◌/◌, ◌%◌, ◌<◌, ◌≡◌, refl, sym, ap, ◌∙◌, false, Option, none, some,
  List, [], ◌∷◌, ◌++◌, arith, length, take, drop, length-drop, drop-nil, take-nil, take_whole, All,
  ltb, leb, if◌then◌else◌,
}
use f.Crypto.Hash.{H256, IsByte, IsH256}
use f.Address.{H160}

unfoldable pub hex_digit : ℕ → ℕ
hex_digit n = if ltb n 10 then b'0' + n else b'a' + (n - 10)

-- `{:>02x}`
unfoldable pub hex_bytes : List ℕ → List ℕ
unfolding hex_digit
hex_bytes [] = []
hex_bytes (b ∷ bytes) = hex_digit (b / 16) ∷ hex_digit (b % 16) ∷ hex_bytes bytes

-- The first byte that is shown.
unfoldable pub first_byte : ℕ → Option ℕ → ℕ
first_byte size none = 0
first_byte size (some precision) = if leb (size * 2) precision then 0 else size - precision / 2

-- `Display` of `H256`, with the precision of the format, if it has one
unfoldable pub fmt_h256 : Option ℕ → H256 → List ℕ
unfolding hex_bytes first_byte
fmt_h256 precision h = hex_bytes (drop (first_byte 32 precision) h.bytes)

-- `Display` of `H160`
unfoldable pub fmt_h160 : Option ℕ → H160 → List ℕ
unfolding hex_bytes first_byte
fmt_h160 precision h = hex_bytes (drop (first_byte 20 precision) h.bytes)

-- `Debug`: the first two bytes and the last two, with two dots between them
unfoldable pub debug_h256 : H256 → List ℕ
unfolding hex_bytes
debug_h256 h = hex_bytes (take 2 h.bytes) ++ (b'.' ∷ b'.' ∷ hex_bytes (take 2 (drop 30 h.bytes)))

unfoldable pub debug_h160 : H160 → List ℕ
unfolding hex_bytes
debug_h160 h = hex_bytes (take 2 h.bytes) ++ (b'.' ∷ b'.' ∷ hex_bytes (take 2 (drop 18 h.bytes)))

-- The reading of hexadecimal digits.
unfoldable pub digit_value : ℕ → ℕ
digit_value c = if ltb c b'a' then c - b'0' else c - b'a' + 10

unfoldable pub unhex : List ℕ → List ℕ
unfolding digit_value
unhex (c ∷ d ∷ text) = (digit_value c * 16 + digit_value d) ∷ unhex text
unhex _ = []

digit_value-hex_digit : (n : ℕ) → n < 16 → digit_value (hex_digit n) ≡ n
unfolding digit_value hex_digit
digit_value-hex_digit n h = ground arith

unhex-hex_bytes : (bytes : List ℕ) → All IsByte bytes → unhex (hex_bytes bytes) ≡ bytes
unfolding unhex hex_bytes
unhex-hex_bytes [] all = refl
unhex-hex_bytes (b ∷ bytes) (small, all) =
    let high = digit_value-hex_digit (b / 16) (omega arith) in
    let low = digit_value-hex_digit (b % 16) (omega arith) in
    let whole : b / 16 * 16 + b % 16 ≡ b = omega arith in
    rw (high, low, whole, unhex-hex_bytes bytes all) refl

length-hex_bytes : (bytes : List ℕ) → length (hex_bytes bytes) ≡ 2 * length bytes
unfolding hex_bytes
length-hex_bytes [] = refl
length-hex_bytes (b ∷ bytes) = omega (arith, length-hex_bytes bytes)

-- The text of a hash without a precision is 64 digits long, and the hash is read back from it.
pub unhex-fmt_h256 :
    (h : H256) → IsH256 h → (unhex (fmt_h256 none h) ≡ h.bytes) × (length (fmt_h256 none h) ≡ 64)
unfolding fmt_h256 first_byte
unhex-fmt_h256 h v =
    (unhex-hex_bytes h.bytes v.in_range, omega (arith, length-hex_bytes h.bytes, v.size))

drop-hex_bytes :
    (k : ℕ) (bytes : List ℕ) → hex_bytes (drop k bytes) ≡ drop (k + k) (hex_bytes bytes)
unfolding hex_bytes
drop-hex_bytes zero bytes = refl
drop-hex_bytes (suc k) [] = sym (drop-nil (suc k + suc k))
drop-hex_bytes (suc k) (b ∷ bytes) =
    let doubled : suc k + suc k ≡ suc (suc (k + k)) = omega arith in
    rw doubled (drop-hex_bytes k bytes)

-- With a precision below 64, the text is the end of the whole one, of as many digits as the precision
-- says, rounded down to a whole byte.
pub fmt_h256_precision :
    (precision : ℕ) (h : H256)
    → precision < 64
    → fmt_h256 (some precision) h ≡ drop (64 - precision / 2 * 2) (fmt_h256 none h)
unfolding fmt_h256 first_byte
fmt_h256_precision precision h small =
    let below : leb 64 precision ≡ false = ground arith in
    rw below (
      drop-hex_bytes (32 - precision / 2) h.bytes
      ∙ ap (λ (n : ℕ). drop n (hex_bytes h.bytes)) (omega arith))

take-hex_bytes :
    (k : ℕ) (bytes : List ℕ) → hex_bytes (take k bytes) ≡ take (k + k) (hex_bytes bytes)
unfolding hex_bytes
take-hex_bytes zero bytes = refl
take-hex_bytes (suc k) [] = sym (take-nil (suc k + suc k))
take-hex_bytes (suc k) (b ∷ bytes) =
    let doubled : suc k + suc k ≡ suc (suc (k + k)) = omega arith in
    rw doubled
      (ap (λ text. hex_digit (b / 16) ∷ hex_digit (b % 16) ∷ text) (take-hex_bytes k bytes))

-- The debug text of a hash is the first four and the last four digits of the whole text, with two dots
-- between them.
pub debug_h256_lem :
    (h : H256)
    → IsH256 h
    → debug_h256 h ≡ take 4 (fmt_h256 none h) ++ (b'.' ∷ b'.' ∷ drop 60 (fmt_h256 none h))
unfolding debug_h256 fmt_h256 first_byte
debug_h256_lem h v =
    let last_two : take 2 (drop 30 h.bytes) ≡ drop 30 h.bytes =
      take_whole 2 (drop 30 h.bytes) (omega (arith, length-drop 30 h.bytes, v.size)) in
    rw (take-hex_bytes 2 h.bytes, last_two, drop-hex_bytes 30 h.bytes)

-- The text of an address without a precision is read back as its bytes, and with a precision below 40 it is
-- the end of the whole text.
pub fmt_h160_lem :
    (precision : ℕ) (h : H160)
    → All IsByte h.bytes
    → precision < 40
    → (unhex (fmt_h160 none h) ≡ h.bytes)
      × (fmt_h160 (some precision) h ≡ drop (40 - precision / 2 * 2) (fmt_h160 none h))
unfolding fmt_h160 first_byte
fmt_h160_lem precision h all small =
    let below : leb 40 precision ≡ false = ground arith in
    (
      unhex-hex_bytes h.bytes all,
      rw below (
          drop-hex_bytes (20 - precision / 2) h.bytes
          ∙ ap (λ (n : ℕ). drop n (hex_bytes h.bytes)) (omega arith)),
    )

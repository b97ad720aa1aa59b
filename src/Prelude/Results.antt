-- ===== src/Prelude/Results.antt =====
-- Outcomes of Rust code: a value, a panic (`unwrap` of `None`, an index out of bounds, an
-- assertion, checked arithmetic), or a loop of the model that ran out of fuel.
use Prim.Native.Nat.{ℕ, ◌+◌, ◌-◌, ◌%◌, ◌^◌, ◌≤◌, ◌<◌}
use mathlib.Core.Path.{◌≡◌, refl, ap}
use mathlib.Core.Logic.{◌≢◌}
use mathlib.Core.Bool.{Bool, true, false}
use mathlib.Core.Option.{Option, none, some}
use native.Mathlib.Omega.{arith}
use f.Prelude.Tests.{ltb, leb, if◌then◌else◌}

pub data Result {ℓ} (T : Type ℓ) : Type ℓ where
  panic : Result T
  ok : T → Result T
  out_of_fuel : Result T

infixl 5 ◌>>=◌ ◌>>◌
-- A step that panics, or has no fuel left, ends the sequence.
abbrev pub ◌>>=◌ {κ ℓ} : {S : Type κ} {T : Type ℓ} → Result S → (S → Result T) → Result T
panic >>= next = panic
ok s >>= next = next s
out_of_fuel >>= next = out_of_fuel

abbrev pub ◌>>◌ {ℓ} : {T : Type ℓ} → Result (Unit {0}) → Result T → Result T
step >> rest = step >>= λ _. rest

-- `Option::unwrap`
abbrev pub unwrap {ℓ} : {A : Type ℓ} → Option A → Result A
unwrap (some a) = ok a
unwrap none = panic

-- `assert!`
abbrev pub assert : Bool → Result (Unit {0})
assert true = ok tt
assert false = panic

-- `a + b` and `a - b` on a w-bit unsigned integer. With overflow checks (the dev profile) an
-- overflow panics; without them (the release profile) it wraps.
unfoldable pub add_word : Bool → ℕ → ℕ → ℕ → Result ℕ
add_word checks w a b =
    if ltb (a + b) (2 ^ w) then ok (a + b) else if checks then panic else ok ((a + b) % 2 ^ w)

unfoldable pub sub_word : Bool → ℕ → ℕ → ℕ → Result ℕ
sub_word checks w a b =
    if leb b a then ok (a - b) else if checks then panic else ok ((a + 2 ^ w - b) % 2 ^ w)

-- Where nothing overflows, the profile does not matter.
pub add_word-fits : (checks : Bool) (w a b : ℕ) → a + b < 2 ^ w → add_word checks w a b ≡ ok (a + b)
unfolding add_word
add_word-fits checks w a b h = ground arith

pub sub_word-fits : (checks : Bool) (w a b : ℕ) → b ≤ a → sub_word checks w a b ≡ ok (a - b)
unfolding sub_word
sub_word-fits checks w a b h = ground arith

-- A sequence that returns has returned from both steps.
pub >>=-eq-ok {κ ℓ} :
    {S : Type κ} {T : Type ℓ} (step : Result S) (next : S → Result T) {t : T}
    → (step >>= next) ≡ ok t
    → (s : S) × (step ≡ ok s) × (next s ≡ ok t)
>>=-eq-ok panic next e = cc
>>=-eq-ok (ok s) next e = (s, refl, e)
>>=-eq-ok out_of_fuel next e = cc

pub unwrap-eq-ok {ℓ} : {A : Type ℓ} (o : Option A) {a : A} → unwrap o ≡ ok a → o ≡ some a
unwrap-eq-ok (some x) h = ground arith
unwrap-eq-ok none h = cc

-- A sequence of two steps runs out of fuel only if one of them does.
pub >>=-ne-out_of_fuel {ℓ κ} :
    {A : Type ℓ} {B : Type κ} (m : Result A) (f : A → Result B)
    → m ≢ out_of_fuel
    → ((a : A) → m ≡ ok a → f a ≢ out_of_fuel)
    → (m >>= f) ≢ out_of_fuel
>>=-ne-out_of_fuel (ok a) f hm hf = hf a refl
>>=-ne-out_of_fuel panic f hm hf = λ e. cc
>>=-ne-out_of_fuel out_of_fuel f hm hf = λ _. hm refl

pub unwrap-ne-out_of_fuel {ℓ} : {A : Type ℓ} (o : Option A) → unwrap o ≢ out_of_fuel
unwrap-ne-out_of_fuel (some a) e = cc
unwrap-ne-out_of_fuel none e = cc

pub add_word-ne-out_of_fuel : (checks : Bool) (w a b : ℕ) → add_word checks w a b ≢ out_of_fuel
unfolding add_word
add_word-ne-out_of_fuel checks w a b e = ground arith

pub ok-injective {ℓ} : {A : Type ℓ} {a b : A} → ok a ≡ ok b → a ≡ b
ok-injective h = cc

-- A first step that panics or leads to a panic.
pub >>=-eq-panic {ℓ κ} :
    {A : Type ℓ} {B : Type κ} (m : Result A) (f : A → Result B)
    → m ≢ out_of_fuel
    → ((a : A) → m ≡ ok a → f a ≡ panic)
    → (m >>= f) ≡ panic
>>=-eq-panic (ok a) f hm hf = hf a refl
>>=-eq-panic panic f hm hf = refl
>>=-eq-panic out_of_fuel f hm hf = absurd (hm refl)

pub >>=-of-ok {ℓ κ} :
    {A : Type ℓ} {B : Type κ} (m : Result A) (f : A → Result B) {a : A} → m ≡ ok a → (m >>= f) ≡ f a
>>=-of-ok (ok x) f e = ap f (ok-injective e)
>>=-of-ok panic f e = cc
>>=-of-ok out_of_fuel f e = cc

pub sub_word-ne-out_of_fuel : (checks : Bool) (w a b : ℕ) → sub_word checks w a b ≢ out_of_fuel
unfolding sub_word
sub_word-ne-out_of_fuel checks w a b e = ground arith

-- A checked subtraction below 0 panics.
pub sub_word-panics : (w a b : ℕ) → a < b → sub_word true w a b ≡ panic
unfolding sub_word
sub_word-panics w a b h = ground arith

pub if-ne-out_of_fuel {ℓ} :
    {A : Type ℓ} (b : Bool) (x y : Result A)
    → x ≢ out_of_fuel
    → y ≢ out_of_fuel
    → (if b then x else y) ≢ out_of_fuel
if-ne-out_of_fuel true x y hx hy = hx
if-ne-out_of_fuel false x y hx hy = hy

pub ok-ne-out_of_fuel {ℓ} : {A : Type ℓ} (a : A) → ok a ≢ out_of_fuel
ok-ne-out_of_fuel a e = cc

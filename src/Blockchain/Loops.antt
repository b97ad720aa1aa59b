-- ===== src/Blockchain/Loops.antt =====
-- What a loop of fallible steps keeps, and whether it runs out of fuel.
use f.Prelude.{
  All, ◌≡◌, ◌≢◌, List, [], ◌∷◌, Result, ok, out_of_fuel, >>=-eq-ok, ok-injective, subst,
  >>=-ne-out_of_fuel,
}
use f.Crypto.Hash.{h256_eq}
use f.Blockchain.{for_each}

pub for_each-ne-out_of_fuel {ℓ κ} :
    {A : Type ℓ} {S : Type κ} (body : A → S → Result S)
    → ((a : A) (s : S) → body a s ≢ out_of_fuel)
    → (xs : List A) (s : S) → for_each body xs s ≢ out_of_fuel
unfolding for_each
for_each-ne-out_of_fuel body h [] s = λ e. cc
for_each-ne-out_of_fuel body h (x ∷ xs) s =
    >>=-ne-out_of_fuel (body x s) (for_each body xs) (h x s)
      (λ s' _. for_each-ne-out_of_fuel body h xs s')

-- A loop whose body keeps `P`, and does not run out of fuel where `P` holds.
pub for_each_keeps {ℓ κ μ} :
    {A : Type ℓ} {S : Type κ} (P : S → Type μ) (body : A → S → Result S)
    → ((a : A) (s s' : S) → P s → body a s ≡ ok s' → P s')
    → (xs : List A) (s s' : S) → P s
    → for_each body xs s ≡ ok s'
    → P s'
unfolding for_each
for_each_keeps P body keep [] s s' p e = subst P (ok-injective e) p
for_each_keeps P body keep (x ∷ xs) s s' p e =
    let (t, e₁, e₂) = >>=-eq-ok (body x s) (for_each body xs) e in
    for_each_keeps P body keep xs t s' (keep x s t p e₁) e₂

pub for_each_returns {ℓ κ μ} :
    {A : Type ℓ} {S : Type κ} (P : S → Type μ) (body : A → S → Result S)
    → ((a : A) (s s' : S) → P s → body a s ≡ ok s' → P s')
    → ((a : A) (s : S) → P s → body a s ≢ out_of_fuel)
    → (xs : List A) (s : S) → P s
    → for_each body xs s ≢ out_of_fuel
unfolding for_each
for_each_returns P body keep ne [] s p = λ e. cc
for_each_returns P body keep ne (x ∷ xs) s p =
    >>=-ne-out_of_fuel (body x s) (for_each body xs) (ne x s p)
      (λ t e. for_each_returns P body keep ne xs t (keep x s t p e))

-- A loop over elements with `Q`, whose body keeps `P` on those.
pub for_each_keeps_on {ℓ κ μ ν} :
    {A : Type ℓ} {S : Type κ} (Q : A → Type ν) (P : S → Type μ) (body : A → S → Result S)
    → ((a : A) (s s' : S) → Q a → P s → body a s ≡ ok s' → P s')
    → (xs : List A) (s s' : S) → All Q xs
    → P s
    → for_each body xs s ≡ ok s'
    → P s'
unfolding for_each
for_each_keeps_on Q P body keep [] s s' q p e = subst P (ok-injective e) p
for_each_keeps_on Q P body keep (x ∷ xs) s s' (q, qs) p e =
    let (t, e₁, e₂) = >>=-eq-ok (body x s) (for_each body xs) e in
    for_each_keeps_on Q P body keep xs t s' qs (keep x s t q p e₁) e₂

-- ===== src/Network/Slab.antt =====
-- The crate `slab`, by what src/network/server.rs uses of it: values under small numbers, which the slab
-- chooses. Reading or removing under a number that is not occupied panics there; `get` says `none`.
use f.Prelude.{ℕ, ◌≡◌, Option, none, some, nat_beq, if◌then◌else◌}

pub record Slab (A : Type 0) : Type 1 where
  pub State : Type 0
  pub new : State
  -- `vacant_entry().key()`
  pub vacant_key : State → ℕ
  -- `vacant_entry().insert(a)`
  pub insert : A → State → State
  pub get : ℕ → State → Option A
  -- an assignment through `&mut slab[key]`
  pub set : ℕ → A → State → State
  pub remove : ℕ → State → State
  pub get-new : (k : ℕ) → get k new ≡ none
  pub get-vacant_key : (s : State) → get (vacant_key s) s ≡ none
  pub get-insert :
      (k : ℕ) (a : A) (s : State)
      → get k (insert a s) ≡ (if nat_beq (vacant_key s) k then some a else get k s)
  pub get-set :
      (j k : ℕ) (a b : A) (s : State)
      → get j s ≡ some b
      → get k (set j a s) ≡ (if nat_beq j k then some a else get k s)
  pub get-remove :
      (j k : ℕ) (s : State) → get k (remove j s) ≡ (if nat_beq j k then none else get k s)

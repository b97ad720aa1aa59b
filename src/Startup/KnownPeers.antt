-- ===== src/Startup/KnownPeers.antt =====
-- src/main.rs: the thread that connects to the known peers.
use f.Prelude.{
  ℕ, suc, ◌≡◌, refl, Bool, true, false, Option, none, some, List, [], ◌∷◌, arith, length, take,
  take-nil, leb,
}
use f.Startup.{retry, connect_known}

-- How many attempts succeed.
unfoldable pub successes : List Bool → ℕ
successes [] = 0
successes (true ∷ attempts) = suc (successes attempts)
successes (false ∷ attempts) = successes attempts

-- What `retry` leaves.
abbrev Retried : List Bool → Option (List Bool) → Type 0
Retried attempts none = successes attempts ≡ 0
Retried attempts (some rest) = successes attempts ≡ suc (successes rest)

retry-Retried : (attempts : List Bool) → Retried attempts (retry attempts)
unfolding retry successes
retry-Retried [] = refl
retry-Retried (true ∷ attempts) = refl
retry-Retried (false ∷ attempts) = go (retry attempts) (retry-Retried attempts)
  where
    go : (o : Option (List Bool)) → Retried attempts o → Retried (false ∷ attempts) o
    go none h = h
    go (some rest) h = h

module _ {Addr : Type 0} (parse_addr : List ℕ → Option Addr) where
  -- The addresses of those texts that parse.
  unfoldable pub parsable : List (List ℕ) → List Addr
  parsable [] = []
  parsable (p ∷ ps) = elim (parse_addr p) [ none ↦ parsable ps | some a ↦ a ∷ parsable ps ]

  -- What `connect_known` does.
  abbrev Connects : List (List ℕ) → List Bool → Type 0
  Connects peers attempts = connect_known parse_addr peers attempts ≡ (
    take (successes attempts) (parsable peers),
    leb (length (parsable peers)) (successes attempts),
  )

  connect_known_step :
      (p : List ℕ) (ps : List (List ℕ)) (attempts : List Bool)
      → ((rest : List Bool) → Connects ps rest)
      → (found : Option Addr) → parse_addr p ≡ found
      → (left : Option (List Bool)) → retry attempts ≡ left
      → Retried attempts left
      → Connects (p ∷ ps) attempts
  unfolding connect_known parsable
  connect_known_step p ps attempts rest none none_found left tried h =
      ground (arith, none_found, rest attempts)
  connect_known_step p ps attempts rest (some a) found none tried h =
      ground (arith, found, tried, h)
  connect_known_step p ps attempts rest (some a) found (some left) tried h =
      ground (arith, found, tried, h, rest left)

  -- The thread connects to the known peers whose addresses parse, in their order and to each of them once,
  -- as many of them as there are attempts that succeed, however many fail in between. It ends as soon as
  -- so many attempts have succeeded as there are such addresses.
  pub connect_known_lem :
      (peers : List (List ℕ)) (attempts : List Bool)
      → connect_known parse_addr peers attempts ≡ (
        take (successes attempts) (parsable peers),
        leb (length (parsable peers)) (successes attempts),
      )
  unfolding connect_known parsable
  connect_known_lem [] attempts =
      let at_least : leb 0 (successes attempts) ≡ true = ground arith in
      rw (take-nil {A = Addr} (successes attempts), at_least)
  connect_known_lem (p ∷ ps) attempts =
      connect_known_step p ps attempts (connect_known_lem ps) (parse_addr p) refl (retry attempts)
        refl (retry-Retried attempts)

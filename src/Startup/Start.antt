-- ===== src/Startup/Start.antt =====
-- src/main.rs: when the start succeeds.
use f.Prelude.{
  ℕ, ◌-◌, ◌^◌, ◌≡◌, refl, Bool, true, false, ◌&&◌, Option, none, some, List, [], ◌∷◌, replicate,
  if◌then◌else◌,
}
use f.HashMap.{is_some}
use f.Decimal.{Parsed, parsed, empty_text, invalid_digit, pos_overflow, parse, ascii}
use f.Startup.{
  Args, value_of, Started, generator, connector, api, exited, parked, Outcome, before, addr_or_exit,
  number_or_exit, connect_and_serve, main,
}

abbrev pub is_parsed : Parsed → Bool
is_parsed (parsed n) = true
is_parsed _ = false

abbrev pub is_api : {Addr : Type 0} → Started Addr → Bool
is_api (api a) = true
is_api _ = false

-- The HTTP interface is among what has been started.
abbrev pub serves : {Addr : Type 0} → List (Started Addr) → Bool
serves [] = false
serves (s ∷ started) = if is_api s then true else serves started

module _ {Addr : Type 0} (parse_addr : List ℕ → Option Addr) where
  -- The four arguments that `main` parses itself are well formed.
  abbrev pub is_valid : Args → Bool
  is_valid args =
      is_some (parse_addr (value_of (ascii "127.0.0.1:6000") args.peer_addr))
      && (is_some (parse_addr (value_of (ascii "127.0.0.1:7000") args.api_addr))
          && (is_parsed (parse (2 ^ 64 - 1) (value_of (ascii "4") args.p2p_workers))
              && is_parsed (parse 255 (value_of (ascii "0") args.account_index))))

  -- The program parks, and serves, exactly if something holds.
  abbrev EndsWell : Bool → Outcome parse_addr → Type 0
  EndsWell b (started, ending) = (ending ≡ (if b then parked else exited)) × (serves started ≡ b)

  addr_or_exit-EndsWell :
      (found : Option Addr) (rest : Addr → Outcome parse_addr) (b : Bool)
      → ((a : Addr) → EndsWell b (rest a))
      → EndsWell (is_some found && b) (addr_or_exit parse_addr found rest)
  addr_or_exit-EndsWell none rest b h = (refl, refl)
  addr_or_exit-EndsWell (some a) rest b h = h a

  number_or_exit-EndsWell :
      (found : Parsed) (rest : ℕ → Outcome parse_addr) (b : Bool)
      → ((n : ℕ) → EndsWell b (rest n))
      → EndsWell (is_parsed found && b) (number_or_exit parse_addr found rest)
  number_or_exit-EndsWell (parsed n) rest b h = h n
  number_or_exit-EndsWell empty_text rest b h = (refl, refl)
  number_or_exit-EndsWell invalid_digit rest b h = (refl, refl)
  number_or_exit-EndsWell pos_overflow rest b h = (refl, refl)

  connect_and_serve-EndsWell :
      (args : Args) (a : Addr) → EndsWell true (connect_and_serve parse_addr true args a)
  unfolding connect_and_serve
  connect_and_serve-EndsWell args a = go args.known_peer
    where
      go :
          (peers : List (List ℕ))
          → EndsWell true (elim peers [
            | [] ↦ (api a ∷ [], parked)
            | p ∷ ps ↦ (connector (p ∷ ps) ∷ api a ∷ [], parked)
          ])
      go [] = (refl, refl)
      go (p ∷ ps) = (refl, refl)

  generator_last :
      (args : Args) (a : Addr) (found : Parsed)
      → EndsWell (is_parsed found) (
          number_or_exit parse_addr found (λ account_index.
            before parse_addr
              (generator (replicate 32 account_index) ∷ [])
              (connect_and_serve parse_addr true args a)))
  generator_last args a (parsed n) = connect_and_serve-EndsWell args a
  generator_last args a empty_text = (refl, refl)
  generator_last args a invalid_digit = (refl, refl)
  generator_last args a pos_overflow = (refl, refl)

  -- Where the poll is made and the HTTP server gets its address, the program comes to park exactly if both addresses, the number of workers and the index of the
  -- account parse, as a `usize` and as a `u8`. Otherwise it exits. The HTTP interface is started exactly
  -- if it comes to park.
  pub main_ending :
      (args : Args)
      → ((main parse_addr true true args).1 ≡ (if is_valid args then parked else exited))
        × (serves (main parse_addr true true args).0 ≡ is_valid args)
  unfolding main
  main_ending args =
      addr_or_exit-EndsWell (parse_addr (value_of (ascii "127.0.0.1:6000") args.peer_addr)) _ _
        (λ p2p_addr.
          addr_or_exit-EndsWell (parse_addr (value_of (ascii "127.0.0.1:7000") args.api_addr)) _ _
            (λ api_addr.
              number_or_exit-EndsWell (parse (2 ^ 64 - 1) (value_of (ascii "4") args.p2p_workers)) _
                _
                (λ p2p_workers.
                  generator_last args api_addr
                    (parse 255 (value_of (ascii "0") args.account_index)))))

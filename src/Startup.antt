-- ===== src/Startup.antt =====
-- src/main.rs: the start of the program. The parser of socket addresses is a parameter, and `clap` gives
-- the texts of the arguments.
pub mod Start
pub mod KnownPeers
use f.Prelude.{
  if◌then◌else◌, ℕ, suc, ◌-◌, ◌^◌, Bool, true, false, Option, none, some, List, [], ◌∷◌, replicate,
}
use f.Decimal.{Parsed, parsed, empty_text, invalid_digit, pos_overflow, parse, ascii}

-- The arguments, where they are given.
pub record Args : Type 0 where
  pub peer_addr : Option (List ℕ)
  pub api_addr : Option (List ℕ)
  pub known_peer : List (List ℕ)
  pub p2p_workers : Option (List ℕ)
  pub account_index : Option (List ℕ)

-- `matches.value_of(name).unwrap()`, with the default of the argument
unfoldable pub value_of : List ℕ → Option (List ℕ) → List ℕ
value_of default none = default
value_of default (some text) = text

-- What `main` starts, in its order, and what it does at the end: it has exited with the code 1, or
-- panicked, or parks.
pub data Started (Addr : Type 0) : Type 0 where
  p2p_server : Addr → Started Addr
  -- with the number of threads
  workers : ℕ → Started Addr
  miner : Started Addr
  -- with the seed of the key pair
  generator : List ℕ → Started Addr
  -- with the texts of the addresses
  connector : List (List ℕ) → Started Addr
  api : Addr → Started Addr

pub data Ending : Type 0 where
  exited panicked parked : Ending

-- The rest of `connect` in the loop: the results of the attempts that are left, unless all fail.
unfoldable pub retry : List Bool → Option (List Bool)
retry [] = none
retry (true ∷ attempts) = some attempts
retry (false ∷ attempts) = retry attempts

module _ {Addr : Type 0} (parse_addr : List ℕ → Option Addr) where
  abbrev pub Outcome : Type 0
  Outcome = List (Started Addr) × Ending

  -- What has been started, in front of what follows.
  abbrev pub before : List (Started Addr) → Outcome → Outcome
  before [] rest = rest
  before (s ∷ started) rest = let (more, ending) = before started rest in (s ∷ more, ending)

  -- `.parse().unwrap_or_else(…)` with `process::exit(1)`
  abbrev pub addr_or_exit : Option Addr → (Addr → Outcome) → Outcome
  addr_or_exit none rest = ([], exited)
  addr_or_exit (some a) rest = rest a

  abbrev pub number_or_exit : Parsed → (ℕ → Outcome) → Outcome
  number_or_exit (parsed n) rest = rest n
  number_or_exit _ rest = ([], exited)

  -- The end of `main`: whether the HTTP server gets its address, which `ApiServer::start` unwraps.
  abbrev pub serve_and_park : Bool → Addr → Outcome
  serve_and_park true api_addr = (api api_addr ∷ [], parked)
  serve_and_park false api_addr = ([], panicked)

  -- The part of `main` behind the transaction generator.
  unfoldable pub connect_and_serve : Bool → Args → Addr → Outcome
  connect_and_serve api_bound args api_addr = elim args.known_peer [
    | [] ↦ serve_and_park api_bound api_addr
    | p ∷ ps ↦ before (connector (p ∷ ps) ∷ []) (serve_and_park api_bound api_addr)
  ]

  -- `main`, given whether `server::new` gets its poll, which is unwrapped, and whether the HTTP server gets
  -- its address.
  unfoldable pub main : (poll_made api_bound : Bool) → Args → Outcome
  unfolding value_of parse connect_and_serve
  main poll_made api_bound args =
      addr_or_exit (parse_addr (value_of (ascii "127.0.0.1:6000") args.peer_addr)) (λ p2p_addr.
        addr_or_exit (parse_addr (value_of (ascii "127.0.0.1:7000") args.api_addr)) (λ api_addr.
          if poll_made
          then before (p2p_server p2p_addr ∷ []) (
              number_or_exit (parse (2 ^ 64 - 1) (value_of (ascii "4") args.p2p_workers))
                (λ p2p_workers. before (workers p2p_workers ∷ miner ∷ []) (
                  number_or_exit (parse 255 (value_of (ascii "0") args.account_index))
                    (λ account_index.
                      before (generator (replicate 32 account_index) ∷ [])
                        (connect_and_serve api_bound args api_addr)))))
          else ([], panicked)))

  -- The thread that connects to the known peers: which addresses it has connected to, given the results of
  -- the attempts, and whether it has ended. An address that does not parse is passed over.
  unfoldable pub connect_known : List (List ℕ) → List Bool → List Addr × Bool
  unfolding retry
  connect_known [] attempts = ([], true)
  connect_known (p ∷ ps) attempts = elim (parse_addr p) [
    | none ↦ connect_known ps attempts
    | some a ↦ elim (retry attempts) [
      | none ↦ ([], false)
      | some rest ↦ let (connected, ended) = connect_known ps rest in (a ∷ connected, ended)
    ]
  ]

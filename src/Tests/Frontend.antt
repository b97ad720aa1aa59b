-- ===== src/Tests/Frontend.antt =====
-- The HTTP interface and the start of the program, on concrete data.
use f.Prelude.{
  ℕ, ◌≡◌, Bool, true, false, Option, none, some, List, [], ◌∷◌, ◌++◌, length, take, leb,
  if◌then◌else◌,
}
use f.Decimal.{pos_overflow, print, ascii}
use f.Miner.{start}
use f.Api.{max_u64, Url, done, lambda_error, to_miner, serve}
use f.Api.Routes.{serve-print}
use f.Startup.{Args, connect_known}
use f.Startup.KnownPeers.{successes, parsable, connect_known_lem}

abbrev ping_url : Url
ping_url = record { path = ascii "/network/ping"; query_pairs = [] }

abbrev other_lambda : List (List ℕ × List ℕ)
other_lambda = (ascii "lambda", ascii "x") ∷ []

serve-print_example :
    serve (
      some (record {
        path = ascii "/miner/start";
        query_pairs = other_lambda ++ (ascii "lambda", print 250) ∷ [];
      }))
    ≡ (if leb 250 max_u64
        then (to_miner (start 250) ∷ [], done)
        else ([], lambda_error pos_overflow))
serve-print_example = serve-print other_lambda 250

-- An address is any text but the empty one.
abbrev toy_parse : List ℕ → Option (List ℕ)
toy_parse [] = none
toy_parse (c ∷ text) = some (c ∷ text)

abbrev three_peers : List (List ℕ)
three_peers = (1 ∷ []) ∷ [] ∷ (2 ∷ []) ∷ []

abbrev attempts : List Bool
attempts = false ∷ true ∷ false ∷ true ∷ []

connect_known_lem_example : connect_known toy_parse three_peers attempts ≡ (
  take (successes attempts) (parsable toy_parse three_peers),
  leb (length (parsable toy_parse three_peers)) (successes attempts),
)
connect_known_lem_example = connect_known_lem toy_parse three_peers attempts

-- The index of the account is too large for a byte.
abbrev toy_args : Args
toy_args = record {
  peer_addr = none;
  api_addr = none;
  known_peer = three_peers;
  p2p_workers = none;
  account_index = some (ascii "300");
}

-- ===== src/Api.antt =====
-- src/api/mod.rs: the HTTP interface. What the crate `url` makes of a request is its path and its query
-- pairs, or an error. A string is the list of its bytes.
pub mod Routes
use f.Prelude.{
  ℕ, suc, ◌+◌, ◌-◌, ◌^◌, Bool, true, false, Option, none, some, List, [], ◌∷◌, Eq, bytes_beq,
  bytes_beq_iff, if◌then◌else◌,
}
use f.HashMap.{HashMap, get, insert}
use f.Decimal.{Parsed, parsed, empty_text, invalid_digit, pos_overflow, parse, ascii}
use f.Miner.{ControlSignal, start, exit}
use f.Network.Message.{Message, ping}

instance abbrev pub bytes_eq : Eq (List ℕ)
bytes_eq = record { beq = bytes_beq; beq_iff = bytes_beq_iff }

-- `u64::MAX`
abbrev pub max_u64 : ℕ
max_u64 = 2 ^ 64 - 1

pub record Url : Type 0 where
  pub path : List ℕ
  pub query_pairs : List (List ℕ × List ℕ)

-- The answers, each with its own message.
pub data ApiResponse : Type 0 where
  done url_error missing_lambda endpoint_not_found : ApiResponse
  -- with the error of `parse`
  lambda_error : Parsed → ApiResponse

-- The field `success` of an answer.
abbrev pub success : ApiResponse → Bool
success done = true
success _ = false

abbrev pub status_code : ApiResponse → ℕ
status_code endpoint_not_found = 404
status_code _ = 200

-- What a request makes the rest of the program do: a signal to the miner, or a broadcast.
pub data Effect : Type 0 where
  to_miner : ControlSignal → Effect
  broadcast : Message → Effect

-- `url.query_pairs().into_owned().collect()`
unfoldable pub collect :
    List (List ℕ × List ℕ) → HashMap (List ℕ) (List ℕ) → HashMap (List ℕ) (List ℕ)
unfolding insert
collect [] params = params
collect ((key, v) ∷ pairs) params = collect pairs (insert key v params)

-- The part behind `lambda.parse::<u64>()`.
unfoldable pub start_with : Parsed → List Effect × ApiResponse
start_with (parsed lambda) = (to_miner (start lambda) ∷ [], done)
start_with empty_text = ([], lambda_error empty_text)
start_with invalid_digit = ([], lambda_error invalid_digit)
start_with pos_overflow = ([], lambda_error pos_overflow)

-- The part behind `params.get("lambda")`.
unfoldable pub start_at : Option (List ℕ) → List Effect × ApiResponse
unfolding parse start_with
start_at none = ([], missing_lambda)
start_at (some lambda) = start_with (parse max_u64 lambda)

-- The route `/miner/start`.
unfoldable pub start_miner : List (List ℕ × List ℕ) → List Effect × ApiResponse
unfolding collect get start_at
start_miner pairs = start_at (get (ascii "lambda") (collect pairs []))

-- The handling of a request.
unfoldable pub serve : Option Url → List Effect × ApiResponse
unfolding start_miner
serve none = ([], url_error)
serve (some url) =
    if bytes_beq url.path (ascii "/miner/start")
    then start_miner url.query_pairs
    else if bytes_beq url.path (ascii "/miner/exit")
    then (to_miner exit ∷ [], done)
    else if bytes_beq url.path (ascii "/network/ping")
    then (broadcast (ping (ascii "Test ping")) ∷ [], done)
    else ([], endpoint_not_found)

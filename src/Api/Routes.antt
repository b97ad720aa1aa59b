-- ===== src/Api/Routes.antt =====
-- src/api/mod.rs: what each request leads to.

use f.Prelude.{
  ℕ, ◌≡◌, refl, ap, ◌∙◌, Bool, true, false, Option, none, some, List, [], ◌∷◌, ◌++◌, arith, length,
  bytes_beq, if◌then◌else◌, leb,
}
use f.HashMap.{HashMap, get, insert}
use f.HashMap.Laws.{get-insert_self}
use f.Decimal.{Parsed, parsed, empty_text, invalid_digit, pos_overflow, parse, print, ascii}
use f.Decimal.RoundTrip.{parse-print, parse_overflow}
use f.Miner.{start}
use f.Api.{
  max_u64, Url, ApiResponse, done, lambda_error, success, Effect, to_miner, collect, bytes_eq,
  start_with, start_at, start_miner, serve,
}

-- There is one effect with a success, and none with a failure.
abbrev Balanced : List Effect × ApiResponse → Type 0
Balanced (effects, response) = length effects ≡ (if success response then 1 else 0)

if-Balanced :
    (b : Bool) (x y : List Effect × ApiResponse)
    → Balanced x
    → Balanced y
    → Balanced (if b then x else y)
if-Balanced true x y hx hy = hx
if-Balanced false x y hx hy = hy

start_with-Balanced : (p : Parsed) → Balanced (start_with p)
unfolding start_with
start_with-Balanced (parsed lambda) = refl
start_with-Balanced empty_text = refl
start_with-Balanced invalid_digit = refl
start_with-Balanced pos_overflow = refl

start_at-Balanced : (lambda : Option (List ℕ)) → Balanced (start_at lambda)
unfolding start_at
start_at-Balanced none = refl
start_at-Balanced (some lambda) = start_with-Balanced (parse max_u64 lambda)

-- A request that is answered with success has one effect, and a request that is answered with a failure
-- has none.
pub serve_effect :
    (url : Option Url) → length (serve url).0 ≡ (if success (serve url).1 then 1 else 0)
unfolding serve start_miner
serve_effect none = refl
serve_effect (some url) =
    if-Balanced (bytes_beq url.path (ascii "/miner/start")) (start_miner url.query_pairs) _
      (start_at-Balanced (get (ascii "lambda") (collect url.query_pairs [])))
      (if-Balanced (bytes_beq url.path (ascii "/miner/exit")) _ _ refl
        (if-Balanced (bytes_beq url.path (ascii "/network/ping")) _ _ refl refl))

collect_last :
    (pairs : List (List ℕ × List ℕ)) (key v : List ℕ) (params : HashMap (List ℕ) (List ℕ))
    → get key (collect (pairs ++ (key, v) ∷ []) params) ≡ some v
unfolding collect
collect_last [] key v params = get-insert_self key v params
collect_last ((k, w) ∷ pairs) key v params = collect_last pairs key v (insert k w params)

-- The request to start the miner whose last parameter `lambda` is the decimal print of a number, whatever
-- other parameters stand before it: a number below 2 ^ 64 is sent to the miner as it is, and for a greater
-- number nothing is sent and the answer is the overflow.
pub serve-print :
    (pairs : List (List ℕ × List ℕ)) (n : ℕ)
    → serve (
        some (record {
          path = ascii "/miner/start";
          query_pairs = pairs ++ (ascii "lambda", print n) ∷ [];
        }))
      ≡ (if leb n max_u64 then (to_miner (start n) ∷ [], done) else ([], lambda_error pos_overflow))
unfolding serve start_miner start_at start_with bytes_beq
serve-print pairs n =
    ap start_at (collect_last pairs (ascii "lambda") (print n) []) ∙ read_back (leb n max_u64) refl
  where
    read_back :
        (fits : Bool)
        → leb n max_u64 ≡ fits
        → start_at (some (print n))
          ≡ (if fits then (to_miner (start n) ∷ [], done) else ([], lambda_error pos_overflow))
    read_back true h = ap start_with (parse-print max_u64 n (ground arith))
    read_back false h = ap start_with (parse_overflow max_u64 n (ground arith))

-- ===== src/System/Whole/Requests.antt =====
-- From a request to the HTTP interface, src/api/mod.rs, to the miner and to the peers.
use f.Prelude.{
  ℕ, ◌≤◌, ◌≡◌, refl, ap, ◌∙◌, true, none, some, List, [], ◌∷◌, ◌++◌, arith, leb, ok, >>=-of-ok,
  if◌then◌else◌,
}
use f.Decimal.{print, ascii}
use f.Network.Message.{Codec, ping}
use f.Network.Slab.{Slab}
use f.Network.Server.{Peer, handle_event, process_controls}
use f.Network.Server.Broadcast.{with_queued, broadcast_effect}
use f.Miner
use f.Miner.{paused, signal, Incoming, loop_round}
use f.Api.{Url, max_u64, serve}
use f.Api.Routes.{serve-print}
use f.System.{act}
use f.System.Whole.{
  control_ready, mining, http, Program, perform, perform_http, act_for, on_event, step, run,
}
use f.System.Whole.Steps.{IsWell}
use f.Externals.{Externals, KeyPair}

module _ (ext : Externals) (codec : Codec) (slab : Slab Peer) (controlled : KeyPair) where
  -- The request to start the miner, with any parameters before `lambda`.
  abbrev start_url : List (List ℕ × List ℕ) → ℕ → Url
  start_url pairs n = record {
    path = ascii "/miner/start";
    query_pairs = pairs ++ (ascii "lambda", print n) ∷ [];
  }

  http_signal :
      (pairs : List (List ℕ × List ℕ)) (n : ℕ) (p : Program ext codec slab)
      → n ≤ max_u64
      → step ext codec slab controlled (http (some (start_url pairs n))) p
        ≡ ok (record p { signals = p.signals ++ Miner.start n ∷ [] })
  unfolding step perform_http
  http_signal pairs n p fits =
      let small : leb n max_u64 ≡ true = ground arith in rw (serve-print pairs n, small)

  -- A request that starts the miner, with a number below 2 ^ 64 as the last `lambda`, reaches a paused
  -- miner to which no signal is on its way: in the next round it runs with that number. The chain, the
  -- pool and the server stay as they are, and nothing is sent.
  pub http-start :
      (pairs : List (List ℕ × List ℕ)) (n now nonce : ℕ) (choices : ℕ → ℕ)
      (p : Program ext codec slab)
      → n ≤ max_u64
      → p.system.miner.operating_state ≡ paused
      → p.signals ≡ []
      → (q : Program ext codec slab) × (run ext codec slab controlled
            (http (some (start_url pairs n)) ∷ mining now nonce choices ∷ [])
            p
          ≡ ok q)
        × (q.system.miner.operating_state ≡ Miner.run n)
        × (q.system.node ≡ p.system.node)
        × (q.server ≡ p.server)
        × (q.controls ≡ p.controls)
        × (q.signals ≡ [])
  unfolding run step act_for perform act loop_round Miner.round_in Miner.handle_control_signal
  http-start pairs n now nonce choices p fits idle quiet =
      let miner : Miner.Context = record p.system.miner {
        operating_state = Miner.run n;
        start_time = elim p.system.miner.start_time [ none ↦ some now | some begun ↦ some begun ];
      } in
      let q : Program ext codec slab = record p {
        system = record p.system { miner = miner };
        signals = [];
      } in
      (
        q,
        >>=-of-ok (step ext codec slab controlled (http (some (start_url pairs n))) p)
              (run ext codec slab controlled (mining now nonce choices ∷ []))
              (http_signal pairs n p fits)
            ∙ rw (quiet, idle) refl,
        refl,
        refl,
        refl,
        refl,
        refl,
      )

  -- A request for a ping is broadcast: when the server reads its control channel, from a consistent state
  -- and with nothing else in the channel, every peer that is connected has the ping at the end of its
  -- queue, and nothing else has changed in the table.
  pub http-ping :
      (pairs : List (List ℕ × List ℕ)) (p : Program ext codec slab)
      → IsWell ext codec slab p
      → p.controls ≡ []
      → (q : Program ext codec slab) × (run ext codec slab controlled
            (http (some (record { path = ascii "/network/ping"; query_pairs = pairs }))
              ∷ control_ready true
              ∷ [])
            p
          ≡ ok q)
        × ((k : ℕ)
            → slab.get k q.server.peers
              ≡ with_queued
                  (codec.serialize (ping (ascii "Test ping")))
                  (slab.get k p.server.peers))
        × (q.server.peer_list ≡ p.server.peer_list)
        × (q.server.delivered ≡ p.server.delivered)
        × (q.system ≡ p.system)
        × IsWell ext codec slab q
  unfolding run step serve perform_http on_event handle_event process_controls f.Prelude.bytes_beq
  http-ping pairs p v quiet =
      let (s', ran, found, listed, delivered, kept) =
        broadcast_effect slab (codec.serialize (ping (ascii "Test ping"))) p.server v.server in
      (
        record p { server = s'; controls = [] },
        rw (quiet, ran) refl,
        found,
        listed,
        delivered,
        refl,
        record { server = kept; system = v.system; worked = v.worked },
      )

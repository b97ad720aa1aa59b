-- ===== src/Lib.antt =====
-- A model of a small proof-of-work blockchain node, and the theorems about it.
--
-- The program is a set of threads around two shared objects, the chain of blocks and the pool of
-- waiting transactions, each behind a lock. Workers take messages of peers from a channel, read or
-- change the chain and the pool, and answer the peer or broadcast. The miner assembles blocks on
-- the tip of the chain, and the transaction generator adds transactions to the pool. The server
-- keeps a table of connections: it cuts what a peer sends into messages, which it puts on the
-- channel, and it writes out what stands in the queue of each peer. The HTTP interface sends
-- signals to the miner and to the server. Each handler holds its locks to the end, so that it is
-- one step here: a function of the shared state that returns the new state and the list of the
-- messages it sends. A panic of the source (a failed `unwrap` or assertion, an arithmetic overflow
-- that the build checks) is the value `panic` of `Result` (Prelude/Results), and it ends the
-- service, since it poisons the locks; what the handler has written to a peer before it is then left out.
--
-- Which file models which part:
--   Crypto/Hash           src/crypto/hash.rs: H256, its digest conversion and its order; the conversions
--                         between arrays in Arrays, and the hashes as numbers in Number
--   Crypto/Hex            the Display and Debug texts of src/crypto/hash.rs and src/address.rs
--   Crypto/Merkle         src/crypto/merkle.rs: MerkleTree::new, root, proof, and verify
--   Address               src/address.rs: H160 and from_pubkey
--   Transaction           src/transaction.rs: inputs, outputs, State; hashes and signatures in Signing; the
--                         transaction of the unit tests in Random
--   Block                 src/block.rs: Header, Content, Block, genesis; hashes and size in Hashing; the
--                         random block of the unit tests in Random
--   Blockchain            src/blockchain.rs: new, insert (insert_block), insert_recursively, the
--                         checks, the orphan buffer, the states; the reading methods in Reads
--   Mempool               src/mempool.rs: insert (insert_transaction), pop, remove_transaction; the pool
--                         without the order of its entries, a quotient, in Abstract
--   Network/Message       src/network/message.rs: the messages, and bincode on them as a parameter
--   Network/Worker        src/network/worker.rs: worker_loop, one function for each message
--   Network/Peer          src/network/peer.rs: ReadContext::read, and the loop over the reads of a peer in
--                         process_readable of src/network/server.rs; WriteContext::write and the queue
--                         of a handle in Network/Peer/Writer
--   Network/Server        src/network/server.rs: register, connect, accept, process_control,
--                         process_readable, process_writable, register_write_interest, and the events of
--                         listen; the top of listen in Start
--   Network/Slab          the crate slab, as an interface of operations and laws
--   Miner                 src/miner.rs: handle_control_signal with the statistics of the end, and one round
--                         of miner_loop
--   Generator             src/transaction_generator.rs: one round of generation_loop
--   Api                   src/api/mod.rs: the routes, their parameters and effects
--   Startup               src/main.rs: the start, and the thread that connects to the known peers
--   System                the threads of src/main.rs on the chain and the pool that they share, interleaved
--   System/Whole          the same threads with the server and the HTTP interface, and with the channels
--                         between them: what a worker, the miner or the generator sends is delivered to
--                         the queue of a peer or to the control channel of the server, and a request to
--                         the HTTP interface to the miner or to the server
--   MidtermProject        MidtermProject1/block.rs: the block of the course, with its own difficulty
--   Decimal               str::parse of the standard library for unsigned integers
--   HashMap               the hash maps of the standard library, as association lists
--   Externals             the other crates, as parameters: SHA-256 and Ed25519 of ring, the encodings
--                         of bincode, and whether the build checks arithmetic for overflow
--   Prelude               the numbers, lists, options and results that the modules share
--   Tests                 small concrete nodes on which the theorems are applied
-- The child modules of a component hold its lemmas, named for what they prove.
--
-- Numbers are the native ℕ. The counters of the source are u32 for the outputs of a transaction,
-- u64 for heights and mined blocks, and u128 for times; `add_word` and `sub_word` wrap or panic as
-- the build does. Indices into vectors and sizes in memory (usize) are not bounded. The hash of a
-- message is a list of bytes, and the theorems that need 32 of them say so.
--
-- Loops are structural recursion where the source iterates over a list. Fuel is used in six places:
-- insert_recursively takes one more than the number of waiting lists of orphans, since each call
-- that goes deeper takes one out; walk_back takes the number of blocks, which bounds the heights;
-- Merkle.build takes the number of leaves, since a round at least halves a level of two nodes or
-- more, rounded up; collect takes 20, the size of a block; receive takes the number of pending
-- bytes, since each read takes one or more; and write_loop takes twice the number of the outcomes
-- of the socket and two more, since each round takes an outcome or only changes the state. The
-- initial outputs have a constant bound.
--
-- The hash maps have no order that the program may rely on: the key that `Mempool::pop` meets first
-- is an argument of `pop`, and so of every loop over it. Time and nonces are arguments, and so are the
-- control signals of the miner, except in System/Whole, where they come from its channel.
--
-- The sockets and the poll are part of the events of the server: which bytes a read gives, how much
-- a write accepts, whether a registration succeeds, and which tokens are ready. So is whether a worker is
-- left that holds the channel for the messages, which none is with no workers or after the last one has
-- panicked. Nothing is assumed of these: where the source panics or returns an error, so does the model,
-- and the causes are named in Network/Server/Events. The slab chooses the numbers of the connections. The
-- text of an address is parsed by a parameter of Startup, and the crate url gives the path and the query of
-- a request.
--
-- Not modelled: src/crypto/key_pair.rs, whose random keys are arguments; the scheduling of the threads
-- inside a step, and which of them waits for a lock; what the other threads do after a panic, since a run
-- ends with the first one; the HTTP server and its JSON text; the decoding of messages by bincode; logging,
-- and the rate of mining, a floating-point number, that is logged.
-- MidtermProject1/blockchain.rs and Warmup2/merkle.rs are handouts that do not compile, since the bodies
-- of their functions are missing or ill typed, and Warmup2/merkle_additional_tests.rs holds tests; the code
-- that came of them is src/blockchain.rs and src/crypto/merkle.rs.
pub mod Prelude
pub mod HashMap
pub mod Crypto
pub mod Address
pub mod Transaction
pub mod Block
pub mod Externals
pub mod Blockchain
pub mod Mempool
pub mod MidtermProject
pub mod Generator
pub mod Miner
pub mod Network
pub mod Decimal
pub mod Api
pub mod Startup
pub mod System
pub mod Tests

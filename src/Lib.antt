-- ===== src/Lib.antt =====
-- Aurion: a model of the node, from the bytes of a frame to the chain that the store holds.
--
-- Parts, each with the file of verification/ that models it (paths from the repository's root):
--
-- * Primitives (crates/aurion-primitives): `CanonicalCodec` is a function from the cursor to a value
--   and what is left of it, or a `CodecError` (Primitives/Codec); `Hash256` and the parameter `Blake3`
--   (Primitives/Hash); `Quantum`, a number below 2 ^ 128 (Primitives/Quantum).
-- * Core (crates/aurion-core): outpoints, datums, transactions, blocks and the Merkle root with their
--   encoders and decoders (Core/OutPoint, Core/Datum, Core/Tx, Core/Block, Core/Merkle).
-- * Eutxo (crates/aurion-eutxo): stored outputs and the rules on locktime, relative locks, coinbase
--   maturity and fees (Eutxo/State, Eutxo/Locktime, Eutxo/Maturity, Eutxo/Fee).
-- * Consensus (crates/aurion-consensus): compact targets and proof of work, the halving schedule, the
--   genesis block and `verify_block_structure`.
-- * Script (crates/aurion-script): opcodes, the stack, script integers and the engine. The engine's
--   state is the record `ScriptEngine`; the opcodes are `execute_op`, a round of the loop is
--   `execute_byte`, the loop `execute_loop`. The parameter `Ed25519` stands for ed25519_dalek.
-- * Storage (crates/aurion-storage): the engine over the parameter `Redb`, a record of the operations of
--   the database with `RedbLaws` on its transactions (Storage/Redb, Storage/Engine); `write_block` is a
--   commit as a function of the tables (Storage/Tables), `Ledger` what the table of outputs stands for
--   (Storage/Refinement).
-- * Node (crates/aurion-node): `verify_block_invariants` over a function that reads the ledger
--   (Node/Invariants), `validate_for_mempool` over a ledger view and the reserved outpoints
--   (Node/Mempool/Validation), the order of transactions by fee per byte (Node/Mempool/FeeRate), the pool
--   of transactions (Node/Mempool/Store), the authority's state machine over a record of storage
--   operations (Node/Authority), and the authority on the engine of Storage with the chain of blocks
--   behind it (Node/Ledger).
-- * Network (crates/aurion-network): `pack_frame` and `unpack_frame` (Network/Frame), and what is published
--   and read of blocks and transactions (Network/Gossip).
-- * Rpc (crates/aurion-rpc): frames over the parameter `Io`, a record of stream operations with `IoLaws`
--   (Rpc/Frame), templates, requests and responses (Rpc/Template, Rpc/Protocol), a round of the server
--   and the client's call around it (Rpc/Server). Text is the UTF-8 test of Rust's strings.
-- * Service (bin/aurion/src/rpc_handler.rs): the store with the authority, and the pool, as the handler of
--   requests. Miner (bin/aurion/src/commands/mine): the coinbase and the candidate block for a template.
--
-- The Node checks call the Script engine on each input, which hashes and decodes through Core and
-- Primitives; Consensus checks headers and coinbases of the same blocks. The authority commits to Storage
-- and reads from it, the Service joins the authority and the pool, and Rpc carries its answers to the
-- Miner, whose blocks come back to the authority.
--
-- Numbers are natural numbers, and a w-byte integer keeps its `% 256 ^ w` where the source casts. A
-- byte is a number below 256. `HashSet` and `Vec` are lists, `HashMap` is a map on one key (Map), a `String`
-- its bytes.
--
-- Fuel: `execute_loop` runs on the length of the bytecode, of which each round takes a byte, and
-- `reduce_layers` on the number of hashes, of which a round leaves about half. Script/Engine/Loop and
-- Core/Merkle/Layers say why this is enough. `timestamps` takes the number of samples that are still wanted.
--
-- Not modelled: blake3, ed25519_dalek, redb, tokio and zenoh, which are not in the repository and are
-- parameters; the indexer, a stub; sessions and queries of the network; the threads that search for a
-- nonce, of which the nonce they return is used; tasks, logging and the command line.
--
-- Concurrency is not modelled: operations run one at a time, each to its end. In the source the authority
-- takes its locks one after the other and holds none from the read of the tip to the commit
-- (`process_and_commit_block`), and the service takes the lock of the pool only after the commit
-- (`handle_submit_block`), while connections and the gossip task run concurrently. The theorems hold for
-- operations that do not interleave.
pub mod Prelude
pub mod Result
pub mod Bytes
pub mod Map
pub mod Primitives
pub mod Core
pub mod Eutxo
pub mod Consensus
pub mod Script
pub mod Text
pub mod Storage
pub mod Node
pub mod Network
pub mod Rpc
pub mod Service
pub mod Miner
pub mod Tests

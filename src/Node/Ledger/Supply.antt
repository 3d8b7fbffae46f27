-- ===== src/Node/Ledger/Supply.antt =====
-- What the blocks that a node has stored can mint (crates/aurion-node/src/authority/engine.rs,
-- crates/aurion-consensus/src/subsidy.rs).
use Prim.Native.String.{String}
use aurion.Prelude.{◌≤◌, List, [], ◌∷◌, length, arith}
use aurion.Primitives.Hash.{Blake3}
use aurion.Core.Block.{Block}
use aurion.Consensus.Subsidy.{max_total_supply_quanta}
use aurion.Consensus.Subsidy.Supply.{emitted-le-cap}
use aurion.Consensus.Verification.Chain.{minted, allowance, allowance-le, minted_by-le}
use aurion.Script.Engine.{Ed25519}
use aurion.Storage.Redb.{Redb, RedbLaws}
use aurion.Storage.Engine.{StorageError}
use aurion.Node.Ledger.Chain.{IsChain}
use aurion.Node.Ledger.Follows.{Engine, Follows, Reachable, Reachable-Follows}

minted-le-allowance_of_chain :
    (blake3 : Blake3) (ed25519 : Ed25519) (chain : List Block)
    → IsChain blake3 ed25519 chain
    → minted chain ≤ allowance (length chain)
unfolding minted allowance
minted-le-allowance_of_chain blake3 ed25519 [] is = omega arith
minted-le-allowance_of_chain blake3 ed25519 (block ∷ parents) is =
    let below = minted-le-allowance_of_chain blake3 ed25519 parents is.1 in
    let here = minted_by-le blake3 block (length parents) is.0.structure in omega arith

-- The chain that a reached node has stored pays out in its coinbases at most 66,000,000 * 10 ^ 8 quanta.
pub Reachable-supply :
    (blake3 : Blake3) (ed25519 : Ed25519) (redb : Redb) (laws : RedbLaws redb)
    (to_string : StorageError redb.DbError → String)
    {engine : Engine blake3 ed25519 redb laws to_string}
    → Reachable blake3 ed25519 redb laws to_string engine
    → (chain : List Block) × Follows blake3 ed25519 redb laws to_string engine.storage chain
      × (minted chain ≤ max_total_supply_quanta)
Reachable-supply blake3 ed25519 redb laws to_string r =
    let (chain, f) = Reachable-Follows blake3 ed25519 redb laws to_string r in
    let within = minted-le-allowance_of_chain blake3 ed25519 chain f.valid in
    (chain, f, omega (arith, allowance-le (length chain), emitted-le-cap (length chain)))

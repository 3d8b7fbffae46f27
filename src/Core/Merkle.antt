-- ===== src/Core/Merkle.antt =====
-- crates/aurion-core/src/merkle.rs
pub mod Layers
use aurion.Prelude.{ℕ, zero, suc, List, [], ◌∷◌, ◌++◌, length}
use aurion.Primitives.Hash.{Hash256, Blake3, digest, zero_hash}

-- the body of the `for` loop over `chunks(2)`: a chunk of one is paired with itself
unfoldable pub next_layer : Blake3 → List Hash256 → List Hash256
next_layer blake3 [] = []
next_layer blake3 (left ∷ []) = digest blake3 (left.as_bytes ++ left.as_bytes) ∷ []
next_layer blake3 (left ∷ right ∷ rest) =
    digest blake3 (left.as_bytes ++ right.as_bytes) ∷ next_layer blake3 rest

-- `while current_layer.len() > 1`, then `current_layer[0]`; a layer of n hashes needs fewer than n
-- rounds, so `length hashes` rounds are enough (Layers).
unfoldable pub reduce_layers : Blake3 → ℕ → List Hash256 → Hash256
reduce_layers blake3 fuel [] = zero_hash
reduce_layers blake3 fuel (root ∷ []) = root
reduce_layers blake3 zero (a ∷ b ∷ rest) = zero_hash
reduce_layers blake3 (suc fuel) (a ∷ b ∷ rest) =
    reduce_layers blake3 fuel (next_layer blake3 (a ∷ b ∷ rest))

unfoldable pub compute_merkle_root : Blake3 → List Hash256 → Hash256
unfolding next_layer reduce_layers
compute_merkle_root blake3 hashes = reduce_layers blake3 (length hashes) hashes

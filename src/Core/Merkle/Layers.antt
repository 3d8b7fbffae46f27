-- ===== src/Core/Merkle/Layers.antt =====
-- The loop of `compute_merkle_root` (crates/aurion-core/src/merkle.rs): its end, and the pairing of
-- the last hash of an odd layer with itself.
use aurion.Prelude.{ℕ, zero, suc, ◌+◌, ◌*◌, ◌≤◌, ◌≡◌, refl, List, [], ◌∷◌, ◌++◌, length, arith}
use aurion.Primitives.Hash.{Hash256, Blake3}
use aurion.Core.Merkle.{next_layer, reduce_layers, compute_merkle_root}

next_layer-shorter :
    (blake3 : Blake3) (hashes : List Hash256)
    → 2 * length (next_layer blake3 hashes) ≤ length hashes + 1
unfolding next_layer
next_layer-shorter blake3 [] = omega arith
next_layer-shorter blake3 (a ∷ []) = omega arith
next_layer-shorter blake3 (a ∷ b ∷ rest) = omega (arith, next_layer-shorter blake3 rest)

reduce_layers-fuel :
    (blake3 : Blake3) (f g : ℕ) (hashes : List Hash256)
    → length hashes ≤ suc f
    → length hashes ≤ suc g
    → reduce_layers blake3 f hashes ≡ reduce_layers blake3 g hashes
unfolding reduce_layers
reduce_layers-fuel blake3 f g [] hf hg = refl
reduce_layers-fuel blake3 f g (a ∷ []) hf hg = refl
reduce_layers-fuel blake3 zero g (a ∷ b ∷ rest) hf hg = absurd (omega arith)
reduce_layers-fuel blake3 (suc f) zero (a ∷ b ∷ rest) hf hg = absurd (omega arith)
reduce_layers-fuel blake3 (suc f) (suc g) (a ∷ b ∷ rest) hf hg =
    let shorter = next_layer-shorter blake3 (a ∷ b ∷ rest) in
    reduce_layers-fuel blake3 f g (next_layer blake3 (a ∷ b ∷ rest)) (omega arith) (omega arith)

-- The root of two hashes or more is the root of the next layer, so the loop runs until one hash is
-- left: it never ends for want of fuel.
pub compute_merkle_root-layer :
    (blake3 : Blake3) (a b : Hash256) (rest : List Hash256)
    → compute_merkle_root blake3 (a ∷ b ∷ rest)
      ≡ compute_merkle_root blake3 (next_layer blake3 (a ∷ b ∷ rest))
unfolding compute_merkle_root reduce_layers
compute_merkle_root-layer blake3 a b rest =
    let shorter = next_layer-shorter blake3 (a ∷ b ∷ rest) in
    let layer = next_layer blake3 (a ∷ b ∷ rest) in
    reduce_layers-fuel blake3 (suc (length rest)) (length layer) layer (omega arith) (omega arith)

next_layer-last_twice :
    (blake3 : Blake3) (c : Hash256) (hashes : List Hash256) (k : ℕ)
    → length hashes ≡ k + k
    → next_layer blake3 (hashes ++ (c ∷ [])) ≡ next_layer blake3 (hashes ++ (c ∷ c ∷ []))
unfolding next_layer
next_layer-last_twice blake3 c [] k h = refl
next_layer-last_twice blake3 c (a ∷ []) k h = absurd (omega arith)
next_layer-last_twice blake3 c (a ∷ b ∷ rest) zero h = absurd (omega arith)
next_layer-last_twice blake3 c (a ∷ b ∷ rest) (suc k) h =
    rw (next_layer-last_twice blake3 c rest k (omega arith))

-- An even number of hashes, two at least, and one more: repeating the last one leaves the root as it
-- is. So a root does not determine the list of transactions.
pub compute_merkle_root-last_twice :
    (blake3 : Blake3) (a b c : Hash256) (rest : List Hash256) (k : ℕ)
    → length rest ≡ k + k
    → compute_merkle_root blake3 (a ∷ b ∷ rest ++ (c ∷ []))
      ≡ compute_merkle_root blake3 (a ∷ b ∷ rest ++ (c ∷ c ∷ []))
unfolding next_layer
compute_merkle_root-last_twice blake3 a b c rest k even =
    rw
      (
        compute_merkle_root-layer blake3 a b (rest ++ (c ∷ [])),
        compute_merkle_root-layer blake3 a b (rest ++ (c ∷ c ∷ [])),
        next_layer-last_twice blake3 c rest k even,
      )
      refl

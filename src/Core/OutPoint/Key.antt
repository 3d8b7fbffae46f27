-- ===== src/Core/OutPoint/Key.antt =====
-- Outpoints as keys of a map: `==` decides equality (crates/aurion-core/src/outpoint.rs).
use aurion.Prelude.{◌≡◌, refl, true, Bool-cases, inl, inr, arith}
use aurion.Map.{Eq}
use aurion.Primitives.Hash.{hash_eq, hash_eq_iff}
use aurion.Core.OutPoint.{OutPoint, outpoint_eq}

pub outpoint_eq-eq : (a b : OutPoint) → outpoint_eq a b ≡ true → a ≡ b
unfolding outpoint_eq
outpoint_eq-eq a b h = elim (Bool-cases (hash_eq a.txid b.txid)) [
  | inl e ↦
      let same_txid = (hash_eq_iff a.txid b.txid).0 e in
      let same_vout : a.vout ≡ b.vout = ground arith in rw (same_txid, same_vout)
  | inr e ↦ absurd (ground arith)
]

pub outpoint_eq_refl : (a : OutPoint) → outpoint_eq a a ≡ true
unfolding outpoint_eq
outpoint_eq_refl a = rw ((hash_eq_iff a.txid a.txid).1 refl) (ground arith)

instance abbrev pub outpoint_key : Eq OutPoint
outpoint_key = record {
  beq = outpoint_eq;
  beq_iff = λ a b. (outpoint_eq-eq a b, λ h. rw (← h) (outpoint_eq_refl a));
}

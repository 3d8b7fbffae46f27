-- ===== src/Primitives/Codec/Laws.antt =====
-- What the readers of codec.rs do on an encoding that is followed by other bytes, and what a
-- successful read says of the bytes that were there.
use mathlib.Core.Path.{subst}
use mathlib.Core.Logic.{◌↔◌}
use aurion.Prelude.{
  ℕ, zero, suc, ◌^◌, ◌<◌, ◌≤◌, ◌≡◌, refl, ap, List, [], ◌∷◌, ◌++◌, append_assoc, append-nil, length,
  take-append, drop-append, take-append-drop, length-take, length-append, All, All-append_left,
  All-append_right, ltb, Bool-cases, arith, inl, inr, false,
}
use aurion.Result.{Result, ok, err}
use aurion.Bytes.{Bytes, IsBytes, to_be}
use aurion.Bytes.Laws.{length-to_be, from_be-to_be, to_be-from_be_of_length}
use aurion.Primitives.Codec.{
  CodecError, finish, Decoder, continue, ◌>>=◌, at_least, split_at, decode_uint, next_byte,
  decode_times, encode_all, decode_canonical, pure,
}

continue-eq-ok {ℓ κ} :
    {A : Type ℓ} {B : Type κ} (r : Result CodecError (A × Bytes)) (f : A → Decoder B)
    {q : B × Bytes}
    → continue r f ≡ ok q
    → (p : A × Bytes) × (r ≡ ok p) × (f p.0 p.1 ≡ ok q)
continue-eq-ok (ok p) f h = (p, refl, h)
continue-eq-ok (err e) f h = cc

-- Inversion of a chain of reads that succeeds.
pub >>=-eq-ok {ℓ κ} :
    {A : Type ℓ} {B : Type κ} (m : Decoder A) (f : A → Decoder B) (cursor : Bytes) {b : B}
    {rest : Bytes}
    → (m >>= f) cursor ≡ ok (b, rest)
    → (p : A × Bytes) × (m cursor ≡ ok p) × (f p.0 p.1 ≡ ok (b, rest))
>>=-eq-ok m f cursor h = continue-eq-ok (m cursor) f h

pub at_least_lem :
    (n : ℕ) (cursor : Bytes) → n ≤ length cursor → at_least n cursor ≡ ok (tt, cursor)
unfolding at_least
at_least_lem n cursor h = ground arith

pub at_least-eq-ok :
    (n : ℕ) (cursor : Bytes) {z : Unit {0} × Bytes} → at_least n cursor ≡ ok z → z.1 ≡ cursor
unfolding at_least
at_least-eq-ok n cursor h = elim (Bool-cases (ltb (length cursor) n)) [
  | inl short ↦ cc
  | inr long ↦ ground arith
]

pub split_at-append : (xs rest : Bytes) → split_at (length xs) (xs ++ rest) ≡ ok (xs, rest)
unfolding split_at
split_at-append xs rest =
    let long : ltb (length (xs ++ rest)) (length xs) ≡ false =
      ground (arith, length-append xs rest) in
    rw (long, take-append, drop-append)

pub split_at-append_of_length :
    (n : ℕ) (xs rest : Bytes) → length xs ≡ n → split_at n (xs ++ rest) ≡ ok (xs, rest)
split_at-append_of_length n xs rest h = rw (← h) (split_at-append xs rest)

pub split_at-eq-ok :
    (n : ℕ) (cursor : Bytes) {xs rest : Bytes}
    → split_at n cursor ≡ ok (xs, rest)
    → (xs ++ rest ≡ cursor) × (length xs ≡ n)
unfolding split_at
split_at-eq-ok n cursor h = elim (Bool-cases (ltb (length cursor) n)) [
  | inl short ↦ cc
  | inr long ↦ ground (arith, take-append-drop n cursor, length-take n cursor)
]

pub decode_uint-append :
    (w n : ℕ) (rest : Bytes) → n < 256 ^ w → decode_uint w (to_be w n ++ rest) ≡ ok (n, rest)
unfolding decode_uint
decode_uint-append w n rest h = rw (
  split_at-append_of_length w (to_be w n) rest (length-to_be w n),
  from_be-to_be w n h,
  decode_uint,
)

-- Equal results hold equal values.
pub ok-injective {ℓ} : {A : Type ℓ} {p q : A} → ◌≡◌ {A = Result CodecError A} (ok p) (ok q) → p ≡ q
ok-injective h = cc

-- A read of `z.0` from `cursor`, of which `z.1` is left, read the encoding of a valid value.
pub record Reads {A : Type 0} (encode : A → Bytes) (IsValid : A → Type 0) (cursor : Bytes)
    (z : A × Bytes) : Type 0 where
  pub written : encode z.0 ++ z.1 ≡ cursor
  pub valid : IsValid z.0
  pub bytes : IsBytes z.1

abbrev pub IsBlock : ℕ → Bytes → Type 0
IsBlock n bs = (length bs ≡ n) × IsBytes bs

pub split_at-Reads :
    (n : ℕ) (cursor : Bytes) (z : Bytes × Bytes)
    → IsBytes cursor
    → split_at n cursor ≡ ok z
    → Reads (λ b. b) (IsBlock n) cursor z
split_at-Reads n cursor z bytes h =
    let (whole, size) = split_at-eq-ok n cursor h in
    let all : IsBytes (z.0 ++ z.1) = rw whole bytes in
    record {
      written = whole;
      valid = (size, All-append_left _ z.0 z.1 all);
      bytes = All-append_right _ z.0 z.1 all;
    }

pub decode_uint-Reads :
    (w : ℕ) (cursor : Bytes) (z : ℕ × Bytes)
    → IsBytes cursor
    → decode_uint w cursor ≡ ok z
    → Reads (to_be w) (λ n. n < 256 ^ w) cursor z
unfolding decode_uint
decode_uint-Reads w cursor z bytes h =
    let (p, at, e) = >>=-eq-ok (split_at w) _ cursor h in
    let r = split_at-Reads w cursor p bytes at in
    let (back, small) = to_be-from_be_of_length w p.0 r.valid.1 r.valid.0 in
    subst (Reads (to_be w) (λ n. n < 256 ^ w) cursor) (ok-injective e)
      (record { written = rw back r.written; valid = small; bytes = r.bytes })

pub next_byte-Reads :
    (cursor : Bytes) (z : ℕ × Bytes)
    → IsBytes cursor
    → next_byte cursor ≡ ok z
    → Reads (λ b. b ∷ []) (λ b. b < 256) cursor z
unfolding next_byte
next_byte-Reads [] z bytes h = cc
next_byte-Reads (b ∷ rest) z bytes h =
    subst (Reads (λ b. b ∷ []) (λ b. b < 256) (b ∷ rest)) (ok-injective h)
      (record { written = refl; valid = bytes.0; bytes = bytes.1 })

-- To reason on a chain of reads, go on from any value that the first reader can have read.
pub reading {κ} :
    {A B : Type 0} {encode : A → Bytes} {IsValid : A → Type 0} {m : Decoder A} {G : Type κ}
    (f : A → Decoder B)
    → ((cursor : Bytes) (z : A × Bytes)
        → IsBytes cursor
        → m cursor ≡ ok z
        → Reads encode IsValid cursor z)
    → (cursor : Bytes) (z : B × Bytes) → IsBytes cursor
    → (m >>= f) cursor ≡ ok z
    → ((p : A × Bytes) → Reads encode IsValid cursor p → f p.0 p.1 ≡ ok z → G)
    → G
reading {m} f sound cursor z bytes h go =
    let (p, at, e) = >>=-eq-ok m f cursor h in go p (sound cursor p bytes at) e

module _ {A : Type 0} (encode : A → Bytes) (IsValid : A → Type 0) (decode : Decoder A) where
  -- A decoder that reads back what the encoder wrote reads back a counted list of it.
  pub decode_times-encode_all :
      ((x : A) (rest : Bytes) → IsValid x → decode (encode x ++ rest) ≡ ok (x, rest))
      → (xs : List A) (rest : Bytes) → All IsValid xs
      → decode_times decode (length xs) (encode_all encode xs ++ rest) ≡ ok (xs, rest)
  unfolding decode_times encode_all
  decode_times-encode_all back [] rest h = refl
  decode_times-encode_all back (x ∷ xs) rest h = rw (
    append_assoc,
    back x (encode_all encode xs ++ rest) h.0,
    decode_times-encode_all back xs rest h.1,
  )

  pub decode_times-Reads :
      ((cursor : Bytes) (z : A × Bytes)
        → IsBytes cursor
        → decode cursor ≡ ok z
        → Reads encode IsValid cursor z)
      → (n : ℕ) (cursor : Bytes) (z : List A × Bytes) → IsBytes cursor
      → decode_times decode n cursor ≡ ok z
      → Reads (encode_all encode) (λ xs. (length xs ≡ n) × All IsValid xs) cursor z
  unfolding decode_times encode_all
  decode_times-Reads sound zero cursor z bytes h =
      subst (Reads (encode_all encode) (λ xs. (length xs ≡ zero) × All IsValid xs) cursor)
        (ok-injective h) (record { written = refl; valid = (refl, tt); bytes = bytes })
  decode_times-Reads sound (suc n) cursor z bytes h =
      let (p, at, e) = >>=-eq-ok decode _ cursor h in
      let r = sound cursor p bytes at in
      let (q, at', e') = >>=-eq-ok (decode_times decode n) _ p.1 e in
      let r' = decode_times-Reads sound n p.1 q r.bytes at' in
      subst (Reads (encode_all encode) (λ xs. (length xs ≡ suc n) × All IsValid xs) cursor)
        (ok-injective e')
        (record {
          written = rw (append_assoc, r'.written) r.written;
          valid = (ap suc r'.valid.0, (r.valid, r'.valid.1));
          bytes = r'.bytes;
        })

finish-eq-ok {ℓ} :
    {A : Type ℓ} (r : Result CodecError (A × Bytes)) {x : A} → finish r ≡ ok x → r ≡ ok (x, [])
finish-eq-ok (ok (a, [])) h = cc
finish-eq-ok (ok (a, b ∷ rest)) h = cc
finish-eq-ok (err e) h = cc

module _ {A : Type 0} (encode : A → Bytes) (IsValid : A → Type 0) (decode : Decoder A) where
  -- A decoder that reads back what was written, and that only reads what was written, accepts a
  -- whole input exactly if it is the encoding of a valid value.
  pub decode_canonical_iff :
      ((x : A) (rest : Bytes) → IsValid x → decode (encode x ++ rest) ≡ ok (x, rest))
      → ((cursor : Bytes) (z : A × Bytes)
          → IsBytes cursor
          → decode cursor ≡ ok z
          → Reads encode IsValid cursor z)
      → (bytes : Bytes) (x : A) → IsBytes bytes
      → (decode_canonical decode bytes ≡ ok x) ↔ ((encode x ≡ bytes) × IsValid x)
  unfolding decode_canonical
  decode_canonical_iff back sound bytes x is = (
    (λ h.
        let r = sound bytes (x, []) is (finish-eq-ok (decode bytes) h) in
        (rw append-nil at r.written, r.valid)),
    (λ h.
        let whole : decode (encode x) ≡ ok (x, []) = rw append-nil at (back x [] h.1) in
        rw (← h.0, whole, decode_canonical)),
  )

-- An arm of a tagged sum: the tag is read, and then a value that a constructor wraps.
pub wrapped-Reads :
    {A B : Type 0} {encode : A → Bytes} {IsValid : A → Type 0} {m : Decoder A} (wrap : A → B)
    (tag : ℕ) {encode_sum : B → Bytes} {IsSum : B → Type 0}
    → ((cursor : Bytes) (z : A × Bytes)
        → IsBytes cursor
        → m cursor ≡ ok z
        → Reads encode IsValid cursor z)
    → ((a : A) → encode_sum (wrap a) ≡ tag ∷ encode a)
    → ((a : A) → IsValid a → IsSum (wrap a))
    → (cursor : Bytes) (z : B × Bytes) → IsBytes cursor
    → (m >>= λ a. pure (wrap a)) cursor ≡ ok z
    → Reads encode_sum IsSum (tag ∷ cursor) z
wrapped-Reads wrap tag {encode_sum} {IsSum} sound shape keeps cursor z bytes h =
    reading _ sound cursor z bytes h λ p r e.
      subst (Reads encode_sum IsSum (tag ∷ cursor)) (ok-injective e) (record {
        written = rw (shape p.0) (ap (λ b. tag ∷ b) r.written);
        valid = keeps p.0 r.valid;
        bytes = r.bytes;
      })

-- The whole encoding of a value is read back.
pub decode_canonical-encode :
    {A : Type 0} (encode : A → Bytes) (decode : Decoder A) (x : A)
    → decode (encode x ++ []) ≡ ok (x, [])
    → decode_canonical decode (encode x) ≡ ok x
unfolding decode_canonical
decode_canonical-encode encode decode x back = let whole = (rw append-nil at back) in rw whole refl

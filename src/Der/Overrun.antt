-- ===== src/Der/Overrun.antt =====
-- Where `der_to_sig` of native-crypto/der.c writes past the 64 bytes of the signature: it does not bound the
-- lengths that it reads.
use chain_wallet.Common.{
  ℕ, ◌+◌, ◌-◌, ◌≡◌, ◌≢◌, ◌<◌, refl, none, some, [], ◌∷◌, ◌++◌, Bytes, length, ltb, ◌==◌, false,
  true, arith, Bool-cases, Option-cases, inl, inr, drop-append, ◌%◌,
}
use chain_wallet.Common.Chain.{copy, copy-append}
use chain_wallet.Der.{
  accepted, rejected, padded, unpad, read_length, read_integer, second, sequence, der_to_sig,
}
use chain_wallet.Der.Accepted.{read_integer_lem}

-- Once the tag is there an integer is read or a read leaves the input.
padded-unrejected : (n : ℕ) (p : Bytes) → padded n p ≢ some rejected
unfolding padded
padded-unrejected n p h = elim (Option-cases (copy n p)) [
  | inl e ↦ let wrong = rw e at h in cc
  | inr (v, e) ↦ let wrong = rw e at h in cc
]

unpad-unrejected : (n : ℕ) (p : Bytes) → unpad n p ≢ some rejected
unfolding unpad
unpad-unrejected n [] h = cc
unpad-unrejected n (b ∷ p) h = elim (Bool-cases (b == 0)) [
  | inl e ↦ padded-unrejected ((n + 255) % 256) p (rw e at h)
  | inr e ↦ padded-unrejected n (b ∷ p) (rw e at h)
]

tagged-unrejected : (p : Bytes) → read_integer (0x02 ∷ p) ≢ some rejected
unfolding read_integer read_length
tagged-unrejected [] h = cc
tagged-unrejected (n ∷ p) h = unpad-unrejected n p h

-- A first integer of more than 32 bytes leaves no room for the second, which takes 32 or more.
second-none :
    (first rest : Bytes) → 32 < length first → second (accepted (first, 0x02 ∷ rest)) ≡ none
unfolding second
second-none first rest long = elim (Bool-cases (ltb 64 (length first))) [
  | inl e ↦ rw e refl
  | inr e ↦ elim (Option-cases (read_integer (0x02 ∷ rest))) [
    | inl f ↦ rw (e, f) refl
    | inr (rejected, f) ↦ absurd (tagged-unrejected rest f)
    | inr (accepted (s, q), f) ↦
        let (behind, tagged, wide) = read_integer_lem (0x02 ∷ rest) f in
        let over : ltb 64 (length first + length s) ≡ true = ground arith in rw (e, f, over) refl
  ]
]

long_integer :
    (b : ℕ) (v rest : Bytes)
    → b ≢ 0
    → 32 < length (b ∷ v)
    → read_integer (0x02 ∷ length (b ∷ v) ∷ ((b ∷ v) ++ rest)) ≡ some (accepted (b ∷ v, rest))
unfolding read_integer read_length unpad padded
long_integer b v rest nz long =
    let test : (b == 0) ≡ false = ground arith in
    let no_room : 32 - length (b ∷ v) ≡ 0 = omega arith in
    rw (test, copy-append (b ∷ v) rest, drop-append (b ∷ v) rest, no_room) refl

-- Two integers of which the first has more than 32 bytes and does not begin with a zero.
pub der_to_sig-long :
    (len b : ℕ) (v rest : Bytes)
    → b ≢ 0
    → 32 < length (b ∷ v)
    → der_to_sig (0x30 ∷ len ∷ 0x02 ∷ length (b ∷ v) ∷ ((b ∷ v) ++ 0x02 ∷ rest)) ≡ none
unfolding der_to_sig sequence
der_to_sig-long len b v rest nz long =
    rw (long_integer b v (0x02 ∷ rest) nz long) (second-none (b ∷ v) rest long)

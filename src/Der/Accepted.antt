-- ===== src/Der/Accepted.antt =====
-- What `der_to_sig` of native-crypto/der.c makes of an input that it accepts.
use chain_wallet.Common.{
  ℕ, zero, suc, ◌+◌, ◌-◌, ◌%◌, ◌≤◌, ◌≡◌, refl, ap, sym, ◌∙◌, some, [], ◌∷◌, ◌++◌, Bytes, length,
  ltb, replicate, length-replicate, length-append, arith, ◌==◌, Bool-cases, Option-cases, inl, inr,
}
use chain_wallet.Common.Chain.{copy}
use chain_wallet.Der.{
  accepted, rejected, padded, unpad, read_length, read_integer, second, sequence, der_to_sig,
}

length-copy : (n : ℕ) (p : Bytes) {v : Bytes} → copy n p ≡ some v → length v ≡ n
length-copy zero p h = ground arith
length-copy (suc n) [] h = cc
length-copy (suc n) (x ∷ p) {v} h = elim (Option-cases (copy n p)) [
  | inl e ↦ ground arith
  | inr (w, e) ↦ let same : x ∷ w ≡ v = ground arith in rw (← same) (ap suc (length-copy n p e))
]

padded_lem : (n : ℕ) (p : Bytes) {v q : Bytes} → padded n p ≡ some (accepted (v, q)) → 32 ≤ length v
unfolding padded
padded_lem n p {v} h = elim (Option-cases (copy n p)) [
  | inl e ↦ ground arith
  | inr (w, e) ↦
      let same : replicate (32 - n) 0 ++ w ≡ v = ground arith in
      let long = length-append (replicate (32 - n) 0) w in
      rw (← same) (omega (arith, long, length-replicate {A = ℕ} (32 - n) 0, length-copy n p e))
]

unpad_lem : (n : ℕ) (p : Bytes) {v q : Bytes} → unpad n p ≡ some (accepted (v, q)) → 32 ≤ length v
unfolding unpad
unpad_lem n [] h = cc
unpad_lem n (b ∷ p) h = elim (Bool-cases (b == 0)) [
  | inl e ↦ padded_lem ((n + 255) % 256) p (rw e at h)
  | inr e ↦ padded_lem n (b ∷ p) (rw e at h)
]

read_length_lem : (p : Bytes) {v q : Bytes} → read_length p ≡ some (accepted (v, q)) → 32 ≤ length v
unfolding read_length
read_length_lem [] h = cc
read_length_lem (n ∷ p) h = unpad_lem n p h

pub read_integer_lem :
    (p : Bytes) {v q : Bytes}
    → read_integer p ≡ some (accepted (v, q))
    → (rest : Bytes) × (p ≡ 0x02 ∷ rest) × (32 ≤ length v)
unfolding read_integer
read_integer_lem [] h = cc
read_integer_lem (tag ∷ p) h = elim (Bool-cases (tag == 0x02)) [
  | inl e ↦
      let tagged : tag ≡ 0x02 = ground arith in (p, rw tagged refl, read_length_lem p (rw e at h))
  | inr e ↦ let refused = rw e at h in cc
]

second_lem :
    (r p : Bytes) {sig : Bytes} {n : ℕ}
    → 32 ≤ length r
    → second (accepted (r, p)) ≡ some (accepted (sig, n))
    → (length sig ≡ 64) × (n ≡ 64)
unfolding second
second_lem r p {sig} {n} long h = elim (Bool-cases (ltb 64 (length r))) [
  | inl over ↦ ground arith
  | inr e ↦ elim (Option-cases (read_integer p)) [
    | inl f ↦ ground arith
    | inr (rejected, f) ↦ ground arith
    | inr (accepted (s, q), f) ↦
        let (rest, tagged, long') = read_integer_lem p f in
        elim (Bool-cases (ltb 64 (length r + length s))) [
          | inl over ↦ ground arith
          | inr fits ↦
              let made : some (accepted (r ++ s, (length r + length s) % 256))
                  ≡ some (accepted (sig, n)) =
                rw (e, f, fits) at h in
              let same : r ++ s ≡ sig = cc in
              let count : (length r + length s) % 256 ≡ n = cc in
              let long'' = length-append r s in
              let room : length r + length s ≤ 64 = ground arith in
              (rw (← same) (omega arith), omega arith)
        ]
  ]
]

second_rejected : second rejected ≡ some rejected
unfolding second
second_rejected = refl

-- `der_to_sig` accepts an input only if it begins with the tag of a sequence and, behind one byte, the tag
-- of an integer; then the signature that it writes has 64 bytes, and 64 is what it returns.
pub der_to_sig-accepted :
    (der : Bytes) {sig : Bytes} {n : ℕ}
    → der_to_sig der ≡ some (accepted (sig, n))
    → (len : ℕ) × (rest : Bytes) × (der ≡ 0x30 ∷ len ∷ 0x02 ∷ rest) × (length sig ≡ 64) × (n ≡ 64)
unfolding der_to_sig sequence
der_to_sig-accepted [] h = cc
der_to_sig-accepted (tag ∷ []) h = elim (Bool-cases (tag == 0x30)) [
  | inl e ↦ let fault = rw e at h in cc
  | inr e ↦ let refused = rw e at h in cc
]
der_to_sig-accepted (tag ∷ len ∷ p) {sig} {n} h = elim (Bool-cases (tag == 0x30)) [
  | inr e ↦ let refused = rw e at h in cc
  | inl e ↦ elim (Option-cases (read_integer p)) [
    | inl f ↦ let fault = rw (e, f) at h in cc
    | inr (rejected, f) ↦
        let refused : some rejected ≡ some (accepted (sig, n)) =
          sym second_rejected ∙ (rw (e, f) at h) in
        cc
    | inr (accepted (r, q), f) ↦
        let tagged : tag ≡ 0x30 = ground arith in
        let (rest, integer, long) = read_integer_lem p f in
        let sized = second_lem r q long (rw (e, f) at h) in
        (len, rest, rw (tagged, integer) refl, sized.0, sized.1)
  ]
]

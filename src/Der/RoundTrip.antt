-- ===== src/Der/RoundTrip.antt =====
-- `der_to_sig` reads back what `sig_to_der` writes.
use chain_wallet.Common.{
  ℕ, zero, suc, ◌+◌, ◌-◌, ◌%◌, ◌≤◌, ◌≡◌, ◌≢◌, refl, some, false, [], ◌∷◌, ◌++◌, Bytes, length, take,
  drop, zeros, arith, leb, ◌==◌, Bool-cases, inl, inr, drop-append, length-take, length-drop,
  length-append, append-nil, take_all, take-append-drop,
}
use chain_wallet.Common.Chain.{copy-append}
use chain_wallet.Der.{
  skip_zeros, integer_content, sig_to_der, accepted, padded, unpad, read_length, read_integer,
  second, der_to_sig,
}
use chain_wallet.Der.Encode.{
  NonzeroHead, Skipped, Stops, Stops-lt, nonzero-Stops, skip_zeros-total, content_lem,
}

padded_lem :
    (n : ℕ) (v rest : Bytes)
    → length v ≡ n
    → padded n (v ++ rest) ≡ some (accepted (zeros (32 - n) ++ v, rest))
unfolding padded
padded_lem n v rest e = rw (← e) (rw (copy-append v rest, drop-append v rest))

unpad_zero :
    (n : ℕ) (v rest : Bytes)
    → length v ≡ n
    → n ≤ 32
    → unpad (n + 1) (0 ∷ (v ++ rest)) ≡ some (accepted (zeros (32 - n) ++ v, rest))
unfolding unpad
unpad_zero n v rest e h =
    let back : (n + 1 + 255) % 256 ≡ n = omega arith in rw back (padded_lem n v rest e)

unpad_nonzero :
    (n b : ℕ) (q v rest : Bytes)
    → b ≢ 0
    → v ++ rest ≡ b ∷ q
    → length v ≡ n
    → unpad n (b ∷ q) ≡ some (accepted (zeros (32 - n) ++ v, rest))
unfolding unpad
unpad_nonzero n b q v rest nz e l =
    let test : (b == 0) ≡ false = ground arith in rw (test, ← e) (padded_lem n v rest l)

-- The content `c` of the 32 bytes at `p` is at most 33 bytes, and is read back as those 32 bytes
-- with `rest` behind it.
abbrev ReadsBack : Bytes → Bytes → Bytes → Type 0
ReadsBack p rest c =
    (length c ≤ 33) × (unpad (length c) (c ++ rest) ≡ some (accepted (take 32 p, rest)))

module _ (left b : ℕ) (p q rest : Bytes) (s : Skipped 32 p left (b ∷ q))
    (long : 32 ≤ length p) where
  length_left : length (take left (b ∷ q)) ≡ left
  length_left =
      let le : left ≤ 32 = s.fewer in
      let moved : 32 + suc (length q) ≡ left + length p = s.moved in
      omega (arith, length-take left (b ∷ q))

  high-ReadsBack : ReadsBack p rest (0 ∷ take left (b ∷ q))
  high-ReadsBack =
      let le : left ≤ 32 = s.fewer in
      let e : length (0 ∷ take left (b ∷ q)) ≡ left + 1 = omega (arith, length_left) in
      (omega arith, rw (e, s.same) (unpad_zero left (take left (b ∷ q)) rest length_left le))

low-ReadsBack :
    (left b : ℕ) (p q rest : Bytes)
    → Skipped 32 p left (b ∷ q)
    → 32 ≤ length p
    → (left ≡ 0 → NonzeroHead rest)
    → ReadsBack p rest (take left (b ∷ q))
low-ReadsBack zero b p q [] s long nz = absurd (nz refl)
low-ReadsBack zero b p q (h ∷ rest) s long nz =
    (omega arith, rw s.same (unpad_nonzero 0 h rest [] (h ∷ rest) (nz refl) refl refl))
low-ReadsBack (suc l) b p q rest s long nz =
    let le : suc l ≤ 32 = s.fewer in
    let e = length_left (suc l) b p q rest s long in
    let nonzero : b ≢ 0 = s.head (λ z. omega arith) in
    (
      omega arith,
      rw (e, s.same)
          (unpad_nonzero (suc l) b (take l q ++ rest) (take (suc l) (b ∷ q)) rest nonzero refl e),
    )

-- What `integer_content` gives for 32 bytes: a content that is read back.
pub integer_lem :
    (p rest : Bytes)
    → Stops 32 p
    → 32 ≤ length p
    → ((take 32 p ≡ zeros 32) → NonzeroHead rest)
    → (c : Bytes) × (integer_content p ≡ some c) × ReadsBack p rest c
unfolding integer_content
integer_lem p rest stops long nz = go (skip_zeros-total 32 p stops)
  where
    zero_left : {left : ℕ} {q : Bytes} → Skipped 32 p left q → left ≡ 0 → take 32 p ≡ zeros 32
    zero_left {left} {q} s z = rw z at s.same

    go :
        (left : ℕ) × (b : ℕ) × (q : Bytes) × (skip_zeros 32 p ≡ some (left, b ∷ q))
          × Skipped 32 p left (b ∷ q)
        → (c : Bytes) × (integer_content p ≡ some c) × ReadsBack p rest c
    go (left, b, q, e, s) =
        let room : left ≤ length (b ∷ q) = omega arith in
        elim (Bool-cases (leb 0x80 b)) [
          | inl t ↦ (
            0 ∷ take left (b ∷ q),
            rw (e, content_lem left b q room, t),
            high-ReadsBack left b p q rest s long,
          )
          | inr t ↦ (
            take left (b ∷ q),
            rw (e, content_lem left b q room, t),
            low-ReadsBack left b p q rest s long (λ z. nz (zero_left s z)),
          )
        ]

-- the second integer, behind the 32 bytes of the first
second_lem :
    (first p s : Bytes)
    → length first ≡ 32
    → length p ≡ 32
    → ReadsBack p [] s
    → second (accepted (first, 0x02 ∷ (length s % 256) ∷ s)) ≡ some (accepted (first ++ p, 64))
unfolding second read_integer read_length
second_lem first p s e f (sized, back) =
    let small : length s % 256 ≡ length s = omega arith in
    let whole : take 32 p ≡ p = take_all 32 p (omega arith) in
    let back' : unpad (length s) s ≡ some (accepted (p, [])) =
      rw whole at (rw (append-nil s) at back) in
    rw (e, small, back', f, e)

decode_lem :
    (r s sig : Bytes) (len : ℕ)
    → length sig ≡ 64
    → ReadsBack (drop 32 sig) [] s
    → ReadsBack sig (0x02 ∷ (length s % 256) ∷ s) r
    → der_to_sig (0x30 ∷ len ∷ 0x02 ∷ (length r % 256) ∷ (r ++ 0x02 ∷ (length s % 256) ∷ s))
      ≡ some (accepted (sig, 64))
unfolding der_to_sig read_integer read_length
decode_lem r s sig len long back (sized, back') =
    let small : length r % 256 ≡ length r = omega arith in
    let first : length (take 32 sig) ≡ 32 = omega (arith, length-take 32 sig) in
    let last : length (drop 32 sig) ≡ 32 = omega (arith, length-drop 32 sig) in
    rw (small, back', second_lem (take 32 sig) (drop 32 sig) s first last back)
      (rw (take-append-drop 32 sig))

-- `sig_to_der` writes no more than the 72 bytes that its caller gives it, and `der_to_sig` reads
-- the signature back, for every signature of 64 bytes whose second half is not 0.
pub der_to_sig-sig_to_der :
    (sig : Bytes)
    → length sig ≡ 64
    → take 32 (drop 32 sig) ≢ zeros 32
    → (der : Bytes) × (n : ℕ) × (sig_to_der sig ≡ some (der, n))
      × (length der ≡ n)
      × (n ≤ 72)
      × (der_to_sig der ≡ some (accepted (sig, 64)))
unfolding sig_to_der
der_to_sig-sig_to_der sig long nz =
    let p : Bytes = drop 32 sig in
    let long' : length p ≡ 32 = omega (arith, length-drop 32 sig) in
    let (s, es, back) = integer_lem p [] (nonzero-Stops 32 p nz long') (omega arith) (λ z. nz z) in
    let rest : Bytes = 0x02 ∷ (length s % 256) ∷ s in
    let (r, er, back') =
      integer_lem sig rest (Stops-lt 32 sig (omega arith)) (omega arith) (λ z e. omega arith) in
    let len : ℕ = (length r % 256 + length s % 256 + 4) % 256 in
    let small : length r ≤ 33 = back'.0 in
    let small' : length s ≤ 33 = back.0 in
    let body : length (r ++ rest) ≡ length r + length rest = length-append r rest in
    (
      0x30 ∷ len ∷ 0x02 ∷ (length r % 256) ∷ (r ++ rest),
      len + 2,
      rw (er, es),
      omega arith,
      omega arith,
      decode_lem r s sig len long back back',
    )

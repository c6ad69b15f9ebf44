-- ===== src/Base32/Padded.antt =====
-- Base32 text with padding is read back, and as if it had none.
use mathlib.Core.List.{map}
use mathlib.Core.Path.{subst}
use chain_wallet.Common.{
  ℕ, zero, suc, ◌+◌, ◌%◌, ◌<◌, ◌≤◌, ◌≡◌, ◌≢◌, ◌⊎◌, refl, ap, ◌∙◌, sym, Bool, true, false, some, [],
  ◌∷◌, ◌++◌, Bytes, length, replicate, length-append, IsBytes, ltb, ◌==◌, if◌then◌else◌, arith,
  Bool-cases, inl, inr,
}
use chain_wallet.Base32.{
  base32_encoded_length, base32_decoded_length, base32_encode_unsafe, pad, base32_encode_padding,
  base32_decode_unsafe, base32_decode, trim, base32_decode_padding,
}
use chain_wallet.Base32.Accepted.{Outcome, base32_decode-accepted}
use chain_wallet.Base32.RoundTrip.{
  symbol, Below32, base32_encode-total, base32_encode-symbols, encode_unsafe-Below32,
  base32_decode-encode,
}

-- The padding is some number of '='.
pad-replicate : (rounds n : ℕ) → (j : ℕ) × (pad rounds n ≡ replicate j b'=')
unfolding pad
pad-replicate zero n = (0, refl)
pad-replicate (suc rounds) n = elim (Bool-cases (n % 8 == 0)) [
  | inl e ↦ (0, rw e refl)
  | inr e ↦ let (j, more) = pad-replicate rounds (n + 1) in (suc j, rw (e, more) refl)
]

-- What `while (inlen && in[inlen - 1] == '=')` leaves.
pub trim-replicate : (j : ℕ) → trim (replicate j b'=') ≡ []
unfolding trim
trim-replicate zero = refl
trim-replicate (suc j) = rw (trim-replicate j) refl

trim_cons : (c : ℕ) (s t : Bytes) → c ≢ b'=' → trim s ≡ t → trim (c ∷ s) ≡ c ∷ t
unfolding trim
trim_cons c s [] other e = ground arith
trim_cons c s (d ∷ t) other e = ground arith

symbol-other : (v : ℕ) → v < 32 → symbol v ≢ b'='
symbol-other v h = ground arith

trim-symbols :
    (vs : Bytes) (j : ℕ) → Below32 vs → trim (map symbol vs ++ replicate j b'=') ≡ map symbol vs
trim-symbols [] j h = trim-replicate j
trim-symbols (v ∷ vs) j (hv, h) =
    trim_cons (symbol v) (map symbol vs ++ replicate j b'=') (map symbol vs) (symbol-other v hv)
      (trim-symbols vs j h)

pad_fills : (n : ℕ) → (n + length (pad 8 n)) % 8 ≡ 0
unfolding pad
pad_fills n = ground arith

-- The padding that is written, if any is.
abbrev pub padding_of : Bool → Bytes → Bytes
padding_of has_padding text = if has_padding then pad 8 (length text) else []

padding-replicate : (b : Bool) (text : Bytes) → (j : ℕ) × (padding_of b text ≡ replicate j b'=')
padding-replicate true text = pad-replicate 8 (length text)
padding-replicate false text = (0, refl)

whole_groups :
    (b : Bool) (text : Bytes) → (b ≡ false) ⊎ (length (text ++ padding_of b text) % 8 ≡ 0)
whole_groups true text =
    inr (rw (length-append text (pad 8 (length text))) (pad_fills (length text)))
whole_groups false text = inl refl

widen : (t x : Bytes) (k n : ℕ) → k ≤ n → base32_decode t k ≡ some x → base32_decode t n ≡ some x
unfolding base32_decode
widen t x k n h e = elim (Bool-cases (ltb k (base32_decoded_length (length t)))) [
  | inl f ↦ let wrong = rw f at e in cc
  | inr f ↦
      let test : ltb n (base32_decoded_length (length t)) ≡ false = ground arith in
      let read : base32_decode_unsafe t ≡ some x = rw f at e in rw test read
]

-- What `base32_encode_padding` prints of bytes, with or without padding, is decoded to them by
-- `base32_decode_padding`, where there is room for the text without its padding and for the bytes. With
-- padding the length of the text is a multiple of eight.
pub base32_decode_padding-encode_padding :
    (x : Bytes) (has_padding : Bool) (outlen n : ℕ)
    → IsBytes x
    → base32_encoded_length (length x) < outlen
    → length x ≤ n
    → (printed : Bytes) × (base32_encode_padding x outlen has_padding ≡ some (printed ++ 0 ∷ []))
      × (base32_decode_padding printed n ≡ some x)
      × ((has_padding ≡ false) ⊎ (length printed % 8 ≡ 0))
unfolding base32_encode_padding base32_decode_padding
base32_decode_padding-encode_padding x has_padding outlen n h room fits =
    let (text, made, long) = base32_encode-total x outlen h room in
    let letters = base32_encode-symbols x text outlen h made in
    let (j, padded) = padding-replicate has_padding text in
    let trimmed : trim (text ++ padding_of has_padding text) ≡ text =
      ap (λ p. trim (text ++ p)) padded
      ∙ ap (λ t. trim (t ++ replicate j b'=')) letters
      ∙ trim-symbols (base32_encode_unsafe x) j (encode_unsafe-Below32 x h)
      ∙ sym letters in
    (
      text ++ padding_of has_padding text,
      rw made refl,
      rw trimmed (widen text x (length x) n fits (base32_decode-encode x text outlen h made)),
      whole_groups has_padding text,
    )

pub length-trim : (t : Bytes) → length (trim t) ≤ length t
unfolding trim
length-trim [] = omega arith
length-trim (c ∷ s) = let shorter = length-trim s in trimmed c s (trim s) shorter
  where
    trimmed :
        (c : ℕ) (s t : Bytes)
        → length t ≤ length s
        → length
            (elim t as (λ x. Bytes) [ [] ↦ if c == b'=' then [] else c ∷ [] | d ∷ u ↦ c ∷ d ∷ u ])
          ≤ length (c ∷ s)
    trimmed c s [] h = ground arith
    trimmed c s (d ∷ u) h = omega arith

decoded_length_monotone : (n k : ℕ) → n ≤ k → base32_decoded_length n ≤ base32_decoded_length k
unfolding base32_decoded_length
decoded_length_monotone n k h = omega arith

-- What is decoded fits into what `base32_decoded_length` of the whole text says, its '=' included.
pub length-base32_decode_padding :
    (t bytes : Bytes) (n : ℕ)
    → base32_decoded_length (length t) ≤ n
    → base32_decode_padding t n ≡ some bytes
    → length bytes ≤ base32_decoded_length (length t)
unfolding base32_decode_padding
length-base32_decode_padding t bytes n room made =
    let shorter = decoded_length_monotone (length (trim t)) (length t) (length-trim t) in
    let outcome = base32_decode-accepted (trim t) n (omega arith) in
    let (is, (sized, are)) = subst (Outcome (trim t)) made outcome in omega arith

-- ===== src/Base32/Digits.antt =====
-- The text that base32.c writes as a number: the bits of the bytes, filled up with zeros to groups of five.
use mathlib.Core.List.{map}
use chain_wallet.Common.{
  ℕ, suc, ◌-◌, ◌*◌, ◌%◌, ◌^◌, ◌≡◌, ap, ◌∙◌, some, [], ◌∷◌, Bytes, length, IsBytes, arith,
}
use chain_wallet.Base32.{base32_5to8, base32_encode_unsafe, base32_encode, base32_encoded_length}
use chain_wallet.Base32.RoundTrip.{
  symbol, Below32, base32_encode-symbols, encode_unsafe-Below32, length-encode_unsafe,
}
use chain_wallet.Base58.Value.{value}

-- The zero bits behind the last of `n` bytes.
abbrev pub spare_bits : ℕ → ℕ
spare_bits n = (5 - 8 * n % 5) % 5

group_value :
    (acc a b c d e : ℕ)
    → IsBytes (a ∷ b ∷ c ∷ d ∷ e ∷ [])
    → value 32 acc (base32_5to8 (a ∷ b ∷ c ∷ d ∷ e ∷ [])) ≡ value 256 acc (a ∷ b ∷ c ∷ d ∷ e ∷ [])
unfolding base32_5to8
group_value acc a b c d e (ha, (hb, (hc, (hd, (he, _))))) = omega arith

spare_group : (n : ℕ) → spare_bits n ≡ spare_bits (suc (suc (suc (suc (suc n)))))
spare_group n = omega arith

encode_unsafe_value :
    (acc : ℕ) (x : Bytes)
    → IsBytes x
    → value 32 acc (base32_encode_unsafe x) ≡ value 256 acc x * 2 ^ spare_bits (length x)
unfolding base32_encode_unsafe base32_5to8
encode_unsafe_value acc [] h = omega arith
encode_unsafe_value acc (a ∷ []) (ha, _) = omega arith
encode_unsafe_value acc (a ∷ b ∷ []) (ha, (hb, _)) = omega arith
encode_unsafe_value acc (a ∷ b ∷ c ∷ []) (ha, (hb, (hc, _))) = omega arith
encode_unsafe_value acc (a ∷ b ∷ c ∷ d ∷ []) (ha, (hb, (hc, (hd, _)))) = omega arith
encode_unsafe_value acc (a ∷ b ∷ c ∷ d ∷ e ∷ rest) (ha, (hb, (hc, (hd, (he, h))))) =
    let group : Bytes = a ∷ b ∷ c ∷ d ∷ e ∷ [] in
    let same = group_value acc a b c d e (ha, (hb, (hc, (hd, (he, tt))))) in
    let start : ℕ = value 256 acc group in
    ap (λ y. value 32 y (base32_encode_unsafe rest)) same
    ∙ encode_unsafe_value start rest h
    ∙ ap (λ k. value 256 start rest * 2 ^ k) (spare_group (length rest))

-- `base32_encode` of bytes writes one letter of the alphabet of RFC 4648 for each digit of a number in
-- base 32: the number of the bytes in base 256, followed by as few zero bits as fill up its bits
-- to groups of five. There are as many digits as `base32_encoded_length` says.
pub base32_encode-value :
    (x text : Bytes) (outlen : ℕ)
    → IsBytes x
    → base32_encode x outlen ≡ some text
    → (ds : Bytes) × (text ≡ map symbol ds)
      × Below32 ds
      × (length ds ≡ base32_encoded_length (length x))
      × (value 32 0 ds ≡ value 256 0 x * 2 ^ spare_bits (length x))
base32_encode-value x text outlen h e = (
  base32_encode_unsafe x,
  base32_encode-symbols x text outlen h e,
  encode_unsafe-Below32 x h,
  length-encode_unsafe x,
  encode_unsafe_value 0 x h,
)

-- ===== src/Examples/Texts.antt =====
-- Texts of the codecs as numbers, and what their readers accept.
use mathlib.Core.List.{map}
use chain_wallet.Common.{
  ℕ, ◌≡◌, ◌*◌, ◌^◌, ◌%◌, ◌≤◌, ◌<◌, ◌++◌, ◌⊎◌, ◌+◌, ◌≢◌, ap, take, drop, refl, true, false, some,
  arith, [], ◌∷◌, Bytes, codes, length, replicate,
}
use chain_wallet.Base32
use chain_wallet.Base32.RoundTrip.{symbol, Below32}
use chain_wallet.Base32.Digits.{spare_bits, base32_encode-value}
use chain_wallet.Base32.Accepted.{Outcome, base32_decode-accepted}
use chain_wallet.Base32.Padded.{base32_decode_padding-encode_padding}
use chain_wallet.Base58
use chain_wallet.Base58.Value.{value}
use chain_wallet.Base58.Foreign.{taken_for, decode-taken_for}
use chain_wallet.Base58.Reading.{IsAscii, Reading, decode-Reading}
use chain_wallet.Der
use chain_wallet.Der.Strict.{IsInteger, sig_to_der-strict}
use chain_wallet.Der.{accepted}
use chain_wallet.Der.Accepted.{der_to_sig-accepted}
use chain_wallet.Examples.Data.{signature, are_bytes-IsBytes}

abbrev bytes : Bytes
bytes = 0x0a ∷ 0xff ∷ []

room : Base32.base32_decoded_length 4 ≤ 2
unfolding Base32.base32_decoded_length
room = omega arith

wide : Base32.base32_encoded_length 2 < 9
unfolding Base32.base32_encoded_length
wide = omega arith

text_of_bytes : Base32.base32_encode bytes 9 ≡ some (codes "BL7Q")
unfolding Base32.base32_encode
text_of_bytes = refl

base32_encode-value_example :
    (ds : Bytes) × (codes "BL7Q" ≡ map symbol ds)
    × Below32 ds
    × (length ds ≡ Base32.base32_encoded_length (length bytes))
    × (value 32 0 ds ≡ value 256 0 bytes * 2 ^ spare_bits (length bytes))
base32_encode-value_example =
    base32_encode-value bytes (codes "BL7Q") 9 (are_bytes-IsBytes bytes refl) text_of_bytes

base32_decode-accepted_example : Outcome (codes "bl7Q") (Base32.base32_decode (codes "bl7Q") 2)
base32_decode-accepted_example = base32_decode-accepted (codes "bl7Q") 2 room

base32_decode_padding-encode_padding_example :
    (printed : Bytes) × (Base32.base32_encode_padding bytes 9 true ≡ some (printed ++ 0 ∷ []))
    × (Base32.base32_decode_padding printed 2 ≡ some bytes)
    × ((true ≡ false) ⊎ (length printed % 8 ≡ 0))
base32_decode_padding-encode_padding_example =
    base32_decode_padding-encode_padding bytes true 9 2 (are_bytes-IsBytes bytes refl) wide
      (omega arith)

decode-taken_for_example : Base58.decode (map taken_for (codes "q0Y")) ≡ Base58.decode (codes "q0Y")
decode-taken_for_example = decode-taken_for (codes "q0Y")

-- A text with a character outside the alphabet.
text_IsAscii : IsAscii (codes "q0Y")
text_IsAscii = (
  ((λ e. omega arith), omega arith),
  (((λ e. omega arith), omega arith), (((λ e. omega arith), omega arith), tt)),
)

decode-Reading_example :
    (ds : Bytes) × (Base58.indexes (codes "q0Y") ≡ some ds)
    × Reading ds (Base58.decode (codes "q0Y"))
decode-Reading_example = decode-Reading (codes "q0Y") text_IsAscii

abbrev head : Bytes → ℕ
head [] = 0
head (b ∷ v) = b

one_zero : ◌≢◌ {A = ℕ} 1 0
one_zero h = omega arith

sig_to_der-strict_example :
    (r s : Bytes) × (Der.sig_to_der signature
      ≡ some (
        0x30 ∷ (length r + length s + 4) ∷ 0x02 ∷ length r ∷ (r ++ 0x02 ∷ length s ∷ s),
        length r + length s + 6,
      ))
    × IsInteger (take 32 signature) r
    × IsInteger (drop 32 signature) s
sig_to_der-strict_example =
    sig_to_der-strict signature refl (λ h. one_zero (ap head h)) (λ h. one_zero (ap head h))

abbrev der : Bytes
der = 0x30 ∷ 68 ∷ 0x02 ∷ 32 ∷ (replicate 32 1 ++ 0x02 ∷ 32 ∷ replicate 32 1)

der_of_signature : Der.der_to_sig der ≡ some (accepted (signature, 64))
unfolding Der.der_to_sig
der_of_signature = refl

der_to_sig-accepted_example :
    (len : ℕ) × (rest : Bytes) × (der ≡ 0x30 ∷ len ∷ 0x02 ∷ rest)
    × (length signature ≡ 64)
    × (◌≡◌ {A = ℕ} 64 64)
der_to_sig-accepted_example = der_to_sig-accepted der der_of_signature

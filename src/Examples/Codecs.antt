-- ===== src/Examples/Codecs.antt =====
-- The codecs on concrete texts and bytes.
use chain_wallet.Common.{
  ℕ, ◌≡◌, ◌≢◌, refl, ap, ◌≤◌, ◌<◌, none, some, [], ◌∷◌, Bytes, IsBytes, codes, length, zeros, take,
  drop, arith, replicate, true, ◌++◌,
}
use mathlib.Core.List.{map}
use chain_wallet.Common.Chain.{◌>>=◌}
use chain_wallet.Jni.Machine.{lookup}
use chain_wallet.Jni.Steps.{ready, used, with_array}
use chain_wallet.Base58
use chain_wallet.Base58.Value.{value, Below}
use chain_wallet.Base58.RoundTrip.{encode-total, decode-encode}
use chain_wallet.Base32
use chain_wallet.Der
use chain_wallet.Der.{Status, accepted}
use chain_wallet.Der.RoundTrip.{der_to_sig-sig_to_der}
use chain_wallet.Hexstring
use chain_wallet.Hexstring.RoundTrip.{spell, str_to_hex-hex_to_str}
use chain_wallet.Hexstring.Reprint.{in_case, hex_to_str-str_to_hex}
use chain_wallet.CryptoJni.Codecs
use chain_wallet.CryptoJni.HexLaws.{hex_to_str_overflows}
use chain_wallet.CryptoJni.Base58Laws.{base58_encode_lem}
use chain_wallet.Jni.Strings.{with_string}
use chain_wallet.CryptoJni.Base32Laws.{filled, base32_decode_lem}
use chain_wallet.CryptoJni.DerLaws.{sig_to_der_overreads, der_to_sig_overruns}
use chain_wallet.Examples.Data.{are_bytes-IsBytes, machine, signature}

abbrev bytes : Bytes
bytes = 0x0a ∷ 0xff ∷ []

bytes-IsBytes : IsBytes bytes
bytes-IsBytes = are_bytes-IsBytes bytes refl

base58_text : Base58.encode bytes ≡ some (codes "qY")
unfolding Base58.encode
base58_text = refl

base32_room : Base32.base32_encoded_length 2 < 9
unfolding Base32.base32_encoded_length
base32_room = omega arith

base32_text : Base32.base32_encode bytes 9 ≡ some (codes "BL7Q")
unfolding Base32.base32_encode
base32_text = refl

spelled : lookup 20 machine.strings ≡ some (spell 32 bytes)
unfolding Hexstring.hex_digit
spelled = refl

abbrev first : Bytes → ℕ
first [] = 0
first (b ∷ v) = b

one_zero : ◌≢◌ {A = ℕ} 1 0
one_zero h = omega arith

signature-nonzero : take 32 (drop 32 signature) ≢ zeros 32
signature-nonzero h = absurd (one_zero (ap first h))

decode-encode_example : Base58.decode (codes "qY") ≡ some bytes
decode-encode_example =
    decode-encode 0 0x0a (0xff ∷ []) (omega arith) bytes-IsBytes base58_text (omega arith)

encode-total_example :
    (d : ℕ) × (t : Bytes) × (Base58.encode (0 ∷ bytes) ≡ some (b'1' ∷ map Base58.letter (d ∷ t)))
    × (d ≢ 0)
    × Below 58 (d ∷ t)
    × (value 58 0 (d ∷ t) ≡ value 256 0 bytes)
encode-total_example = encode-total 1 0x0a (0xff ∷ []) (omega arith) bytes-IsBytes

der_to_sig-sig_to_der_example :
    (der : Bytes) × (n : ℕ) × (Der.sig_to_der signature ≡ some (der, n))
    × (length der ≡ n)
    × (n ≤ 72)
    × (Der.der_to_sig der ≡ some (accepted (signature, 64)))
der_to_sig-sig_to_der_example = der_to_sig-sig_to_der signature refl signature-nonzero

str_to_hex-hex_to_str_example :
    (Hexstring.hex_to_str bytes 2 0 >>= λ text. Hexstring.str_to_hex text 2) ≡ some bytes
str_to_hex-hex_to_str_example = str_to_hex-hex_to_str bytes 0 bytes-IsBytes

hex_to_str-str_to_hex_example :
    (Hexstring.str_to_hex (codes "0aFf") 2 >>= λ v. Hexstring.hex_to_str v 2 1)
    ≡ some (map (in_case 1) (codes "0aFf") ++ 0 ∷ [])
hex_to_str-str_to_hex_example = hex_to_str-str_to_hex (codes "0aFf") 2 1 refl refl

hex_to_str_overflows_example : Codecs.hex_to_str 0 (ready 0 machine) ≡ none
hex_to_str_overflows_example = hex_to_str_overflows 0 (1 ∷ 2 ∷ 3 ∷ []) machine refl

padded_text :
    Base32.base32_decode_padding (codes "BL7Q====") (Base32.base32_decoded_length 8) ≡ some bytes
unfolding Base32.base32_decode_padding Base32.base32_decoded_length
padded_text = refl

-- The array of two bytes has three zeros behind them.
base32_decode_lem_example :
    Codecs.base32_decode 30 true (ready 0 (with_string (codes "BL7Q====") machine))
    ≡ some (
      some 31,
      ready 0 (
          with_array
            (filled (codes "BL7Q====") bytes)
            (used 1 (with_string (codes "BL7Q====") machine))),
    )
base32_decode_lem_example =
    base32_decode_lem 30 (codes "BL7Q====") (with_string (codes "BL7Q====") machine) refl true
      padded_text

abbrev half_empty : Bytes
half_empty = replicate 32 1 ++ zeros 32

sig_to_der_overreads_example : Codecs.sig_to_der 30 (ready 0 (with_array half_empty machine)) ≡ none
sig_to_der_overreads_example =
    sig_to_der_overreads 30 half_empty (with_array half_empty machine) refl refl refl

-- An integer of 33 bytes.
abbrev long_der : Bytes
long_der = 0x30 ∷ 70 ∷ 0x02 ∷ 33 ∷ (replicate 33 1 ++ 0x02 ∷ 1 ∷ 1 ∷ [])

der_to_sig_overruns_example : Codecs.der_to_sig 30 (ready 0 (with_array long_der machine)) ≡ none
der_to_sig_overruns_example =
    der_to_sig_overruns 30 70 1 (replicate 32 1) (1 ∷ 1 ∷ []) (with_array long_der machine) refl
      one_zero (omega arith)

message_text : Base58.encode (1 ∷ 2 ∷ 3 ∷ []) ≡ some (codes "Ldp")
unfolding Base58.encode
message_text = refl

base58_encode_lem_example :
    Codecs.base58_encode 0 (ready 0 machine)
    ≡ some (some 30, ready 0 (with_string (codes "Ldp") (used 4 machine)))
base58_encode_lem_example =
    base58_encode_lem 0 0 1 (2 ∷ 3 ∷ []) machine refl (omega arith)
      (are_bytes-IsBytes (1 ∷ 2 ∷ 3 ∷ []) refl) message_text

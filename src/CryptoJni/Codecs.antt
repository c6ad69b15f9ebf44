-- ===== src/CryptoJni/Codecs.antt =====
-- The wrappers of crypto-wrapper.c for hexadecimal, Base32, Base58 and DER.
use chain_wallet.Common.{ℕ, ◌+◌, ◌*◌, ◌/◌, Bool, none, some, [], ◌∷◌, ◌++◌}
use chain_wallet.Jni.Machine.{Ptr, M, pure, fault, lift, ◌>>=◌, ◌>>◌}
use chain_wallet.Jni.Memory.{calloc, free, read, write}
use chain_wallet.Jni.Calls.{new_string_utf, get_string_utf_chars, get_string_utf_length}
use chain_wallet.Jni.Method.{critical_array_to_c, critical_array_release}
use chain_wallet.Primitives.{Primitives}
use chain_wallet.Hexstring
use chain_wallet.Base32
use chain_wallet.Base58.Heap
use chain_wallet.Der
use chain_wallet.Der.{Status, rejected, accepted}
use chain_wallet.CryptoJni.Digests.{return_bytes}

unfoldable pub hex_to_str : ℕ → M Ptr
hex_to_str j_bytes = do
  (bytes, data_size) ← critical_array_to_c j_bytes
  out ← calloc (data_size * 2)
  elim out [
    | none ↦ do critical_array_release j_bytes bytes; pure none
    | some o ↦ do
      src ← read bytes data_size
      text ← lift (Hexstring.hex_to_str src data_size 1)
      write (some o) text
      critical_array_release j_bytes bytes
      result ← new_string_utf (some o)
      free (some o)
      pure result
  ]

-- The characters of a string end in a NUL.
unfoldable pub str_to_hex : ℕ → M Ptr
str_to_hex j_date = do
  date_len ← get_string_utf_length j_date
  out ← calloc (date_len / 2)
  elim out [
    | none ↦ pure none
    | some o ↦ do
      date_str ← get_string_utf_chars j_date
      bytes ← lift (Hexstring.str_to_hex (date_str ++ 0 ∷ []) (date_len / 2))
      write (some o) bytes
      return_bytes (date_len / 2) (some o)
  ]

-- Where NULL comes back the output is not freed.
unfoldable pub base32_encode : ℕ → Bool → M Ptr
base32_encode input_array padding = do
  (input, input_len) ← critical_array_to_c input_array
  let output_len = Base32.base32_encoded_length input_len
  output ← calloc (output_len + 1)
  bytes ← read input input_len
  elim (Base32.base32_encode_padding bytes (output_len + 1) padding) [
    | none ↦ do critical_array_release input_array input; pure none
    | some text ↦ do
      write output text
      critical_array_release input_array input
      result ← new_string_utf output
      free output
      pure result
  ]

-- The array is as long as the whole text asks for, its '=' included. The flag only moves the
-- pointer that is compared with NULL.
unfoldable pub base32_decode : ℕ → Bool → M Ptr
base32_decode j_date padding = do
  input ← get_string_utf_chars j_date
  input_len ← get_string_utf_length j_date
  let output_len = Base32.base32_decoded_length input_len
  output ← calloc output_len
  elim (Base32.base32_decode_padding input output_len) [
    | none ↦ pure none
    | some bytes ↦ do write output bytes; return_bytes output_len output
  ]

unfoldable pub base58_encode : ℕ → M Ptr
base58_encode j_bytes = do
  (bytes, bytes_size) ← critical_array_to_c j_bytes
  (out, out_len) ← Heap.base58_encode bytes bytes_size
  critical_array_release j_bytes bytes
  result ← new_string_utf out
  free out
  pure result

-- The end of both decoders: an unset length is a fault.
unfoldable pub return_sized : Heap.Sized → M Ptr
return_sized (out, none) = fault
return_sized (out, some n) = return_bytes n out

unfoldable pub base58_decode : ℕ → M Ptr
base58_decode j_date = do
  bytes ← get_string_utf_chars j_date
  size ← get_string_utf_length j_date
  out ← Heap.base58_decode bytes
  return_sized out

module _ (c : Primitives) where
  unfoldable pub base58_encode_check : ℕ → M Ptr
  base58_encode_check j_bytes = do
    (bytes, bytes_size) ← critical_array_to_c j_bytes
    (out, out_len) ← Heap.base58_encode_check c bytes bytes_size
    critical_array_release j_bytes bytes
    result ← new_string_utf out
    free out
    pure result

  unfoldable pub base58_decode_check : ℕ → M Ptr
  base58_decode_check j_date = do
    bytes ← get_string_utf_chars j_date
    size ← get_string_utf_length j_date
    out ← Heap.base58_decode_check c bytes
    return_sized out

unfoldable pub sig_to_der : ℕ → M Ptr
sig_to_der j_sign = do
  der ← calloc 72
  elim der [
    | none ↦ pure none
    | some d ↦ do
      (sign, sign_size) ← critical_array_to_c j_sign
      sig ← read sign sign_size
      (bytes, der_len) ← lift (Der.sig_to_der sig)
      write (some d) bytes
      critical_array_release j_sign sign
      return_bytes der_len (some d)
  ]

-- A rejected signature may have left bytes in the block, which is freed unread.
unfoldable pub der_to_sig : ℕ → M Ptr
der_to_sig j_der = do
  sign ← calloc 64
  elim sign [
    | none ↦ pure none
    | some g ↦ do
      (der, der_size) ← critical_array_to_c j_der
      bytes ← read der der_size
      status ← lift (Der.der_to_sig bytes)
      elim status [
        | rejected ↦ do critical_array_release j_der der; free (some g); pure none
        | accepted (sig, n) ↦ do
          write (some g) sig
          critical_array_release j_der der
          return_bytes 64 (some g)
      ]
  ]

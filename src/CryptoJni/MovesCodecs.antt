-- ===== src/CryptoJni/MovesCodecs.antt =====
-- The text formats' wrappers of crypto-wrapper.c leave as many critical regions open as they find, and
-- make no JNI call inside one.
use chain_wallet.Common.{ℕ, ◌+◌, Bool, none, some}
use chain_wallet.Jni.Machine.{M, ◌>>=◌}
use chain_wallet.Jni.Moves.{Allowed, Moves, still, Moves-held, Moves-bind, Moves-option}
use chain_wallet.Jni.MovesCalls.{
  critical_array_to_c-Moves, calloc-Moves, read-Moves, get_string_utf_chars-Moves,
  get_string_utf_length-Moves,
}
use chain_wallet.Primitives.{Primitives}
use chain_wallet.Base32
use chain_wallet.Base58.Heap
use chain_wallet.Base58.Moves.{
  base58_encode-Moves as heap_encode, base58_decode-Moves as heap_decode,
  base58_encode_check-Moves as heap_encode_check, base58_decode_check-Moves as heap_decode_check,
}
use chain_wallet.Der.{Status, rejected, accepted}
use chain_wallet.CryptoJni.MovesDigests.{bytes_moves}
use chain_wallet.CryptoJni.Codecs

-- The status of a signature that is read.
Moves-status :
    {A B : Type 0} {calm : Bool} {n : ℕ} {k : A → ℕ} (m : M (Status B)) (f : Status B → M A)
    → Moves calm n (still n) m
    → Moves calm n k (f rejected)
    → ((b : B) → Moves calm n k (f (accepted b)))
    → Moves calm n k (m >>= f)
Moves-status {B = B} {calm = calm} {n = n} {k = k} m f km kr ka = Moves-bind m f km cases
  where
    cases : (o : Status B) → Moves calm n k (f o)
    cases rejected = kr
    cases (accepted b) = ka b

module _ {calm : Bool} {i : ℕ} (ok : Allowed calm i) where
  return_sized-Moves : (x : Heap.Sized) → Moves calm i (still i) (Codecs.return_sized x)
  unfolding Codecs.return_sized
  return_sized-Moves (p, none) = search bytes_moves
  return_sized-Moves (p, some n) = search bytes_moves

  ruleset codec_moves = (
    return_sized-Moves, heap_encode, heap_decode, heap_encode_check, heap_decode_check, bytes_moves,
  )

  module _ (r : ℕ) where
    pub hex_to_str-Moves : Moves calm i (still i) (Codecs.hex_to_str r)
    unfolding Codecs.hex_to_str
    hex_to_str-Moves = search codec_moves depth 60 fits 4000

    pub str_to_hex-Moves : Moves calm i (still i) (Codecs.str_to_hex r)
    unfolding Codecs.str_to_hex
    str_to_hex-Moves = search codec_moves depth 60 fits 4000

    pub base58_encode-Moves : Moves calm i (still i) (Codecs.base58_encode r)
    unfolding Codecs.base58_encode
    base58_encode-Moves = search codec_moves depth 60 fits 4000

    pub base58_decode-Moves : Moves calm i (still i) (Codecs.base58_decode r)
    unfolding Codecs.base58_decode
    base58_decode-Moves = search codec_moves depth 60 fits 4000

    pub base58_encode_check-Moves :
        (c : Primitives) → Moves calm i (still i) (Codecs.base58_encode_check c r)
    unfolding Codecs.base58_encode_check
    base58_encode_check-Moves c = search codec_moves depth 60 fits 4000

    pub base58_decode_check-Moves :
        (c : Primitives) → Moves calm i (still i) (Codecs.base58_decode_check c r)
    unfolding Codecs.base58_decode_check
    base58_decode_check-Moves c = search codec_moves depth 60 fits 4000

    pub sig_to_der-Moves : Moves calm i (still i) (Codecs.sig_to_der r)
    unfolding Codecs.sig_to_der
    sig_to_der-Moves = search codec_moves depth 60 fits 4000

    pub der_to_sig-Moves : Moves calm i (still i) (Codecs.der_to_sig r)
    unfolding Codecs.der_to_sig
    der_to_sig-Moves = search (Moves-status, codec_moves) depth 60 fits 4000

    pub base32_encode-Moves : (b : Bool) → Moves calm i (still i) (Codecs.base32_encode r b)
    unfolding Codecs.base32_encode
    base32_encode-Moves b =
        Moves-held _ _ (critical_array_to_c-Moves r ok) (λ k. search codec_moves depth 60 fits 4000)
          λ a k. Moves-bind _ _ (calloc-Moves _) λ o. Moves-bind _ _ (read-Moves _ _) λ m.
            Moves-option (Base32.base32_encode_padding m (Base32.base32_encoded_length k + 1) b) _ _
              (search codec_moves) λ t. search codec_moves depth 60 fits 4000

    pub base32_decode-Moves : (b : Bool) → Moves calm i (still i) (Codecs.base32_decode r b)
    unfolding Codecs.base32_decode
    base32_decode-Moves b = Moves-bind _ _ (get_string_utf_chars-Moves r ok) λ t.
        Moves-bind _ _ (get_string_utf_length-Moves r ok) λ n. Moves-bind _ _ (calloc-Moves _) λ o.
          Moves-option (Base32.base32_decode_padding t (Base32.base32_decoded_length n)) _ _
            (search codec_moves) λ v. search codec_moves

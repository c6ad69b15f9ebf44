-- ===== src/CryptoJni/FollowsCodecs.antt =====
-- The text formats' wrappers of crypto-wrapper.c under refused memory.
use chain_wallet.Common.{ℕ, ◌+◌, Bool, Option, none, some}
use chain_wallet.Jni.Machine.{M, ◌>>=◌}
use chain_wallet.Jni.Follows.{
  Follows, Ends, Never, IsMissing, Follows-array, Follows-ptr, Follows-bind, Follows-option,
  Ends-bind, Ends-option,
}
use chain_wallet.Jni.FollowsCalls.{
  calloc-Follows, read-Follows, get_string_utf_chars-Follows, get_string_utf_length-Follows,
}
use chain_wallet.Jni.FollowsMethod.{critical_array_to_c-Follows}
use chain_wallet.Primitives.{Primitives}
use chain_wallet.Base32
use chain_wallet.Base58.Heap
use chain_wallet.Base58.Follows.{
  base58_encode-Follows as heap_encode, base58_decode-Follows as heap_decode,
  base58_encode_check-Follows as heap_encode_check,
  base58_decode_check-Follows as heap_decode_check,
}
use chain_wallet.Der.{Status, rejected, accepted}
use chain_wallet.CryptoJni.FollowsDigests.{bytes_follows}
use chain_wallet.CryptoJni.Digests
use chain_wallet.CryptoJni.Codecs

-- The status of a signature that is read.
Follows-status :
    {A B : Type 0} {P : A → Type 0} (m : M (Status B)) (f : Status B → M A)
    → Follows Never m
    → Follows P (f rejected)
    → ((b : B) → Follows P (f (accepted b)))
    → Follows P (m >>= f)
Follows-status {B = B} {P = P} m f km kr ka = Follows-bind m f km cases
  where
    cases : (o : Status B) → Follows P (f o)
    cases rejected = kr
    cases (accepted b) = ka b

return_sized-Follows : (x : Heap.Sized) → Follows IsMissing (Codecs.return_sized x)
unfolding Codecs.return_sized
return_sized-Follows (p, none) = search bytes_follows
return_sized-Follows (p, some n) = search bytes_follows

return_sized-Ends : (n : Option ℕ) → Ends IsMissing (Codecs.return_sized (none, n))
unfolding Codecs.return_sized Digests.return_bytes
return_sized-Ends none = search bytes_follows
return_sized-Ends (some n) = search bytes_follows

ruleset codec_follows = (
  return_sized-Ends, return_sized-Follows, heap_encode, heap_decode, heap_encode_check,
  heap_decode_check, bytes_follows,
)

pub hex_to_str-Follows : (r : ℕ) → Follows IsMissing (Codecs.hex_to_str r)
unfolding Codecs.hex_to_str
hex_to_str-Follows r = search codec_follows depth 60 fits 4000

pub str_to_hex-Follows : (r : ℕ) → Follows IsMissing (Codecs.str_to_hex r)
unfolding Codecs.str_to_hex
str_to_hex-Follows r = search codec_follows depth 60 fits 4000

pub base58_encode-Follows : (r : ℕ) → Follows IsMissing (Codecs.base58_encode r)
unfolding Codecs.base58_encode
base58_encode-Follows r = search codec_follows depth 60 fits 4000

pub base58_decode-Follows : (r : ℕ) → Follows IsMissing (Codecs.base58_decode r)
unfolding Codecs.base58_decode
base58_decode-Follows r = search codec_follows depth 60 fits 4000

module _ (c : Primitives) (r : ℕ) where
  pub base58_encode_check-Follows : Follows IsMissing (Codecs.base58_encode_check c r)
  unfolding Codecs.base58_encode_check
  base58_encode_check-Follows = search codec_follows depth 60 fits 4000

  pub base58_decode_check-Follows : Follows IsMissing (Codecs.base58_decode_check c r)
  unfolding Codecs.base58_decode_check
  base58_decode_check-Follows = search codec_follows depth 60 fits 4000

pub sig_to_der-Follows : (r : ℕ) → Follows IsMissing (Codecs.sig_to_der r)
unfolding Codecs.sig_to_der
sig_to_der-Follows r = search codec_follows depth 60 fits 4000

pub der_to_sig-Follows : (r : ℕ) → Follows IsMissing (Codecs.der_to_sig r)
unfolding Codecs.der_to_sig
der_to_sig-Follows r = search (Follows-status, codec_follows) depth 60 fits 4000

pub base32_encode-Follows : (r : ℕ) (b : Bool) → Follows IsMissing (Codecs.base32_encode r b)
unfolding Codecs.base32_encode
base32_encode-Follows r b =
    Follows-array _ _ (critical_array_to_c-Follows r) (λ k. search codec_follows depth 60 fits 4000)
      λ a k.
        Follows-ptr _ _ (calloc-Follows _)
          (Ends-bind _ _ λ m.
            Ends-option (Base32.base32_encode_padding m (Base32.base32_encoded_length k + 1) b) _ _
              (search codec_follows) (λ t. search codec_follows))
          λ o. Follows-bind _ _ (read-Follows _ _) λ m.
            Follows-option (Base32.base32_encode_padding m (Base32.base32_encoded_length k + 1) b) _
              _ (search codec_follows depth 60 fits 4000)
              λ t. search codec_follows depth 60 fits 4000

pub base32_decode-Follows : (r : ℕ) (b : Bool) → Follows IsMissing (Codecs.base32_decode r b)
unfolding Codecs.base32_decode
base32_decode-Follows r b = Follows-bind _ _ (get_string_utf_chars-Follows r) λ t.
    Follows-bind _ _ (get_string_utf_length-Follows r) λ n.
      Follows-ptr _ _ (calloc-Follows _)
        (Ends-option (Base32.base32_decode_padding t (Base32.base32_decoded_length n)) _ _
          (search codec_follows) (λ v. search codec_follows))
        λ o.
          Follows-option (Base32.base32_decode_padding t (Base32.base32_decoded_length n)) _ _
            (search codec_follows) λ v. search codec_follows

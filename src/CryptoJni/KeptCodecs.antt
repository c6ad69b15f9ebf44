-- ===== src/CryptoJni/KeptCodecs.antt =====
-- The text formats' wrappers of crypto-wrapper.c and the validity of the machine.
use chain_wallet.Common.{ℕ, Bool, none, some, Option-cases, inl, inr}
use chain_wallet.Jni.Machine.{M, ◌>>=◌}
use chain_wallet.Jni.Keeps.{Keeps, Keeps-bind, Keeps-ptr}
use chain_wallet.Primitives.{Primitives}
use chain_wallet.Base58.Heap
use chain_wallet.Base58.Kept
use chain_wallet.Der.{Status, rejected, accepted}
use chain_wallet.CryptoJni.KeptDigests.{bytes_rules}
use chain_wallet.Base32
use chain_wallet.Common.{◌+◌}
use chain_wallet.CryptoJni.Codecs

-- The status of a signature that is read.
Keeps-status :
    {A B : Type 0} (m : M (Status B)) (f : Status B → M A)
    → Keeps m
    → Keeps (f rejected)
    → ((b : B) → Keeps (f (accepted b)))
    → Keeps (m >>= f)
Keeps-status {B} m f km kr ka = Keeps-bind m f km cases
  where
    cases : (o : Status B) → Keeps (f o)
    cases rejected = kr
    cases (accepted b) = ka b

pub return_sized-Keeps : (o : Heap.Sized) → Keeps (Codecs.return_sized o)
unfolding Codecs.return_sized
return_sized-Keeps (p, none) = search bytes_rules
return_sized-Keeps (p, some n) = search bytes_rules

pub hex_to_str-Keeps : (r : ℕ) → Keeps (Codecs.hex_to_str r)
unfolding Codecs.hex_to_str
hex_to_str-Keeps r = search bytes_rules depth 60 fits 4000

pub str_to_hex-Keeps : (r : ℕ) → Keeps (Codecs.str_to_hex r)
unfolding Codecs.str_to_hex
str_to_hex-Keeps r = search bytes_rules depth 60 fits 4000

pub base32_encode-Keeps : (r : ℕ) (b : Bool) → Keeps (Codecs.base32_encode r b)
unfolding Codecs.base32_encode
base32_encode-Keeps r b = Keeps-bind _ _ (search bytes_rules depth 60 fits 4000) λ x0.
    Keeps-bind _ _ (search bytes_rules depth 60 fits 4000) λ x1.
      Keeps-bind _ _ (search bytes_rules depth 60 fits 4000) λ x2.
        elim (Option-cases
          (Base32.base32_encode_padding x2 (Base32.base32_encoded_length (x0.1) + 1) b)) [
            | inl e ↦ rw e (search bytes_rules depth 60 fits 4000)
            | inr (a, e) ↦ rw e (search bytes_rules depth 60 fits 4000)
          ]

pub base32_decode-Keeps : (r : ℕ) (b : Bool) → Keeps (Codecs.base32_decode r b)
unfolding Codecs.base32_decode
base32_decode-Keeps r b = Keeps-bind _ _ (search bytes_rules depth 60 fits 4000) λ x0.
    Keeps-bind _ _ (search bytes_rules depth 60 fits 4000) λ x1.
      Keeps-bind _ _ (search bytes_rules depth 60 fits 4000) λ x2.
        elim (Option-cases (Base32.base32_decode_padding x0 (Base32.base32_decoded_length x1))) [
          | inl e ↦ rw e (search bytes_rules depth 60 fits 4000)
          | inr (a, e) ↦ rw e (search bytes_rules depth 60 fits 4000)
        ]

pub base58_encode-Keeps : (r : ℕ) → Keeps (Codecs.base58_encode r)
unfolding Codecs.base58_encode
base58_encode-Keeps r =
    search
      (
        bytes_rules, Kept.base58_encode-Keeps, Kept.base58_decode-Keeps,
        Kept.base58_encode_check-Keeps, Kept.base58_decode_check-Keeps,
      )
      depth 60 fits 4000

pub base58_decode-Keeps : (r : ℕ) → Keeps (Codecs.base58_decode r)
unfolding Codecs.base58_decode
base58_decode-Keeps r =
    search
      (
        bytes_rules, Kept.base58_encode-Keeps, Kept.base58_decode-Keeps,
        Kept.base58_encode_check-Keeps, Kept.base58_decode_check-Keeps, return_sized-Keeps,
      )
      depth 60 fits 4000

pub base58_encode_check-Keeps : (c : Primitives) (r : ℕ) → Keeps (Codecs.base58_encode_check c r)
unfolding Codecs.base58_encode_check
base58_encode_check-Keeps c r =
    search
      (
        bytes_rules, Kept.base58_encode-Keeps, Kept.base58_decode-Keeps,
        Kept.base58_encode_check-Keeps, Kept.base58_decode_check-Keeps,
      )
      depth 60 fits 4000

pub base58_decode_check-Keeps : (c : Primitives) (r : ℕ) → Keeps (Codecs.base58_decode_check c r)
unfolding Codecs.base58_decode_check
base58_decode_check-Keeps c r =
    search
      (
        bytes_rules, Kept.base58_encode-Keeps, Kept.base58_decode-Keeps,
        Kept.base58_encode_check-Keeps, Kept.base58_decode_check-Keeps, return_sized-Keeps,
      )
      depth 60 fits 4000

pub sig_to_der-Keeps : (r : ℕ) → Keeps (Codecs.sig_to_der r)
unfolding Codecs.sig_to_der
sig_to_der-Keeps r = search bytes_rules depth 60 fits 4000

pub der_to_sig-Keeps : (r : ℕ) → Keeps (Codecs.der_to_sig r)
unfolding Codecs.der_to_sig
der_to_sig-Keeps r =
    Keeps-ptr _ _ (search bytes_rules depth 60 fits 4000) (search bytes_rules depth 60 fits 4000)
      λ g. Keeps-bind _ _ (search bytes_rules depth 60 fits 4000) λ x.
        Keeps-bind _ _ (search bytes_rules depth 60 fits 4000) λ m.
          Keeps-status _ _ (search bytes_rules depth 60 fits 4000)
            (search bytes_rules depth 60 fits 4000) (λ a. search bytes_rules depth 60 fits 4000)

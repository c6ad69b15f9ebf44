-- ===== src/Native.antt =====
-- The functions that the app's Kotlin classes declare `external`, as requests to one machine: those of
-- `CryptoJNI` (crypto/core), `Secp256k1JNI`, `Ed25519JNI` and `Aes`. An array or a string is given by
-- its reference.
pub mod Kept
pub mod Moves
pub mod Follows
pub mod Reach
pub mod View
pub mod Spec
pub mod Implements
pub mod HashesMeet
pub mod KeysMeet
pub mod TextsMeet
pub mod CiphersMeet
pub mod Session
pub mod Refusals
pub mod Histories
use chain_wallet.Common.{ℕ, Bool, Option, ◌∷◌, [], List}
use chain_wallet.Jni.Machine.{Ptr, M, pure, ◌>>=◌}
use chain_wallet.Primitives.{Primitives}
use chain_wallet.Secp256k1.{Ecdsa}
use chain_wallet.Ed25519Jni.{Donna}
use chain_wallet.AesJni.{Aes}
use chain_wallet.CryptoJni.DigestTable.{Algorithm, call}
use chain_wallet.CryptoJni.Digests
use chain_wallet.CryptoJni.Keyed
use chain_wallet.CryptoJni.Blake
use chain_wallet.CryptoJni.Codecs
use chain_wallet.Secp256k1Jni
use chain_wallet.Ed25519Jni
use chain_wallet.AesJni

-- The code that the wrappers call and that is a parameter.
pub record Library : Type 0 where
  pub primitives : Primitives
  pub ecdsa : Ecdsa
  pub donna : Donna
  pub aes : Aes

pub data Request : Type 0 where
  hash : Algorithm → ℕ → Request
  ripemd160 blake_256 : ℕ → Request
  hmac_sha256 hmac_sha512 : ℕ → ℕ → Request
  pbkdf2_hmac_sha256 pbkdf2_hmac_sha512 : ℕ → ℕ → ℕ → ℕ → Request
  blake2b blake2s : ℕ → ℕ → Request
  blake2b_with_key blake2s_with_key : ℕ → ℕ → ℕ → Request
  hex_to_str str_to_hex base58_encode base58_decode base58_encode_check base58_decode_check :
      ℕ → Request
  base32_encode base32_decode : ℕ → Bool → Request
  sig_to_der der_to_sig : ℕ → Request
  secp256k1_create_public_key : ℕ → Bool → Request
  secp256k1_sign : ℕ → ℕ → Request
  secp256k1_eth_sign : ℕ → ℕ → Bool → Request
  secp256k1_verify : ℕ → ℕ → ℕ → Request
  ed25519_create_public_key curve25519_create_public_key : ℕ → Request
  ed25519_sign : ℕ → ℕ → ℕ → Request
  ed25519_verify : ℕ → ℕ → ℕ → ℕ → Request
  curve25519_create_shared_key : ℕ → ℕ → Request
  aes_encrypt aes_decrypt : ℕ → ℕ → ℕ → ℕ → Request

-- What comes back: a reference or NULL, the two references of `ethSign`, a verdict.
pub data Reply : Type 0 where
  reference : Ptr → Reply
  references : Option (Ptr × Ptr) → Reply
  verdict : Bool → Reply

abbrev pub as_reference : M Ptr → M Reply
as_reference m = m >>= λ p. pure (reference p)

abbrev pub as_references : M (Option (Ptr × Ptr)) → M Reply
as_references m = m >>= λ p. pure (references p)

abbrev pub as_verdict : M Bool → M Reply
as_verdict m = m >>= λ b. pure (verdict b)

module _ (l : Library) where
  unfoldable pub perform : Request → M Reply
  perform (Request.hash a r) = as_reference (call l.primitives a r)
  perform (Request.ripemd160 r) = as_reference (Digests.ripemd160 l.primitives r)
  perform (Request.blake_256 r) = as_reference (Blake.blake_256 l.primitives r)
  perform (Request.hmac_sha256 k m) = as_reference (Keyed.hmac_sha256 l.primitives k m)
  perform (Request.hmac_sha512 k m) = as_reference (Keyed.hmac_sha512 l.primitives k m)
  perform (Request.pbkdf2_hmac_sha256 p s i n) =
      as_reference (Keyed.pbkdf2_hmac_sha256 l.primitives p s i n)
  perform (Request.pbkdf2_hmac_sha512 p s i n) =
      as_reference (Keyed.pbkdf2_hmac_sha512 l.primitives p s i n)
  perform (Request.blake2b r n) = as_reference (Blake.blake2b l.primitives r n)
  perform (Request.blake2s r n) = as_reference (Blake.blake2s l.primitives r n)
  perform (Request.blake2b_with_key r k n) =
      as_reference (Blake.blake2b_with_key l.primitives r k n)
  perform (Request.blake2s_with_key r k n) =
      as_reference (Blake.blake2s_with_key l.primitives r k n)
  perform (Request.hex_to_str r) = as_reference (Codecs.hex_to_str r)
  perform (Request.str_to_hex r) = as_reference (Codecs.str_to_hex r)
  perform (Request.base58_encode r) = as_reference (Codecs.base58_encode r)
  perform (Request.base58_decode r) = as_reference (Codecs.base58_decode r)
  perform (Request.base58_encode_check r) = as_reference (Codecs.base58_encode_check l.primitives r)
  perform (Request.base58_decode_check r) = as_reference (Codecs.base58_decode_check l.primitives r)
  perform (Request.base32_encode r padding) = as_reference (Codecs.base32_encode r padding)
  perform (Request.base32_decode r padding) = as_reference (Codecs.base32_decode r padding)
  perform (Request.sig_to_der r) = as_reference (Codecs.sig_to_der r)
  perform (Request.der_to_sig r) = as_reference (Codecs.der_to_sig r)
  perform (Request.secp256k1_create_public_key k compressed) =
      as_reference (Secp256k1Jni.create_public_key l.ecdsa k compressed)
  perform (Request.secp256k1_sign k m) = as_reference (Secp256k1Jni.sign l.ecdsa k m)
  perform (Request.secp256k1_eth_sign k m compressed) =
      as_references (Secp256k1Jni.eth_sign l.ecdsa k m compressed)
  perform (Request.secp256k1_verify k g m) = as_verdict (Secp256k1Jni.verify l.ecdsa k g m)
  perform (Request.ed25519_create_public_key k) =
      as_reference (Ed25519Jni.create_public_key l.donna k)
  perform (Request.curve25519_create_public_key k) =
      as_reference (Ed25519Jni.curve25519_create_public_key l.donna k)
  perform (Request.ed25519_sign k m n) = as_reference (Ed25519Jni.sign l.donna k m n)
  perform (Request.ed25519_verify k g m n) = as_verdict (Ed25519Jni.verify l.donna k g m n)
  perform (Request.curve25519_create_shared_key k p) =
      as_reference (Ed25519Jni.curve25519_create_shared_key l.donna k p)
  perform (Request.aes_encrypt k d i mode) = as_reference (AesJni.encrypt l.aes k d i mode)
  perform (Request.aes_decrypt k d i mode) = as_reference (AesJni.decrypt l.aes k d i mode)

  -- A session of the app: one request after the other.
  unfoldable pub perform_all : List Request → M (List Reply)
  perform_all [] = pure []
  perform_all (q ∷ qs) = do reply ← perform q; replies ← perform_all qs; pure (reply ∷ replies)

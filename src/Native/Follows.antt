-- ===== src/Native/Follows.antt =====
-- The native functions, as requests, under refused memory; `verify` of secp256k1 apart, which answers
-- for a message that is too long without its elements.
use chain_wallet.Common.{ℕ, ◌≡◌, Option, none, Bool, true, false}
use chain_wallet.Jni.Machine.{Ptr, M, pure, ◌>>=◌}
use chain_wallet.Jni.Follows.{
  Follows, Never, IsMissing, bind-Follows, Follows-bind, Follows-pure, Ends-pure,
}
use chain_wallet.Primitives.{Primitives}
use chain_wallet.CryptoJni.DigestTable.{Algorithm, call}
use chain_wallet.CryptoJni.Digests
use chain_wallet.CryptoJni.Keyed
use chain_wallet.CryptoJni.FollowsDigests
use chain_wallet.CryptoJni.FollowsBlake
use chain_wallet.CryptoJni.FollowsCodecs
use chain_wallet.Secp256k1Jni.Follows as KeyFollows
use chain_wallet.Ed25519Jni.Follows as EdFollows
use chain_wallet.AesJni.Follows as AesFollows
use chain_wallet.Native.{Library, Request, Reply, reference, references, verdict, perform}

-- NULL, and no answer of a verification.
abbrev pub IsNull : Reply → Type 0
IsNull (reference p) = p ≡ none
IsNull (references p) = p ≡ none
IsNull (verdict b) = ⊥

-- Every request but that one.
abbrev pub is_other : Request → Bool
is_other (Request.secp256k1_verify k g m) = false
is_other _ = true

as_reference-Follows :
    (m : M Ptr) → Follows IsMissing m → Follows IsNull (m >>= λ p. pure (reference p))
as_reference-Follows m k =
    bind-Follows IsMissing m _ k (λ p h. Ends-pure (reference p) h.is_none)
      λ p. Follows-pure (reference p)

as_references-Follows :
    (m : M (Option (Ptr × Ptr)))
    → Follows IsMissing m
    → Follows IsNull (m >>= λ p. pure (references p))
as_references-Follows m k =
    bind-Follows IsMissing m _ k (λ p h. Ends-pure (references p) h.is_none)
      λ p. Follows-pure (references p)

pub as_verdict-Follows :
    (m : M Bool) → Follows Never m → Follows IsNull (m >>= λ b. pure (verdict b))
as_verdict-Follows m k = Follows-bind m _ k λ b. Follows-pure (verdict b)

call-Follows : (c : Primitives) (a : Algorithm) (r : ℕ) → Follows IsMissing (call c a r)
unfolding Digests.sha256 Digests.sha512 Digests.sha3_224 Digests.sha3_256 Digests.sha3_384
    Digests.sha3_512 Digests.keccak_224 Digests.keccak_256 Digests.keccak_384 Digests.keccak_512
    Digests.double_sha256 Digests.double_sha3_256 Digests.double_keccak_256
call-Follows c Algorithm.sha256 r = FollowsDigests.copy_digest-Follows _ _ r
call-Follows c Algorithm.sha512 r = FollowsDigests.copy_digest-Follows _ _ r
call-Follows c Algorithm.double_sha256 r = FollowsDigests.copy_double_digest-Follows _ _ r
call-Follows c Algorithm.double_sha3_256 r = FollowsDigests.critical_double_digest-Follows _ _ r
call-Follows c Algorithm.double_keccak_256 r = FollowsDigests.critical_double_digest-Follows _ _ r
call-Follows c _ r = FollowsDigests.critical_digest-Follows _ _ r

module _ (l : Library) where
  pub perform-Follows : (q : Request) → is_other q ≡ true → Follows IsNull (perform l q)
  unfolding perform Keyed.hmac_sha256 Keyed.hmac_sha512 Keyed.pbkdf2_hmac_sha256
      Keyed.pbkdf2_hmac_sha512
  perform-Follows (Request.hash a r) h = as_reference-Follows _ (call-Follows l.primitives a r)
  perform-Follows (Request.ripemd160 r) h =
      as_reference-Follows _ (FollowsDigests.ripemd160-Follows _ r)
  perform-Follows (Request.blake_256 r) h =
      as_reference-Follows _ (FollowsBlake.blake_256-Follows _ r)
  perform-Follows (Request.hmac_sha256 k m) h =
      as_reference-Follows _ (FollowsDigests.hmac-Follows _ _ k m)
  perform-Follows (Request.hmac_sha512 k m) h =
      as_reference-Follows _ (FollowsDigests.hmac-Follows _ _ k m)
  perform-Follows (Request.pbkdf2_hmac_sha256 p s i n) h =
      as_reference-Follows _ (FollowsDigests.pbkdf2-Follows _ p s i n)
  perform-Follows (Request.pbkdf2_hmac_sha512 p s i n) h =
      as_reference-Follows _ (FollowsDigests.pbkdf2-Follows _ p s i n)
  perform-Follows (Request.blake2b r n) h =
      as_reference-Follows _ (FollowsBlake.blake2b-Follows _ r n)
  perform-Follows (Request.blake2s r n) h =
      as_reference-Follows _ (FollowsBlake.blake2s-Follows _ r n)
  perform-Follows (Request.blake2b_with_key r k n) h =
      as_reference-Follows _ (FollowsBlake.blake2b_with_key-Follows _ r k n)
  perform-Follows (Request.blake2s_with_key r k n) h =
      as_reference-Follows _ (FollowsBlake.blake2s_with_key-Follows _ r k n)
  perform-Follows (Request.hex_to_str r) h =
      as_reference-Follows _ (FollowsCodecs.hex_to_str-Follows r)
  perform-Follows (Request.str_to_hex r) h =
      as_reference-Follows _ (FollowsCodecs.str_to_hex-Follows r)
  perform-Follows (Request.base58_encode r) h =
      as_reference-Follows _ (FollowsCodecs.base58_encode-Follows r)
  perform-Follows (Request.base58_decode r) h =
      as_reference-Follows _ (FollowsCodecs.base58_decode-Follows r)
  perform-Follows (Request.sig_to_der r) h =
      as_reference-Follows _ (FollowsCodecs.sig_to_der-Follows r)
  perform-Follows (Request.der_to_sig r) h =
      as_reference-Follows _ (FollowsCodecs.der_to_sig-Follows r)
  perform-Follows (Request.base58_encode_check r) h =
      as_reference-Follows _ (FollowsCodecs.base58_encode_check-Follows _ r)
  perform-Follows (Request.base58_decode_check r) h =
      as_reference-Follows _ (FollowsCodecs.base58_decode_check-Follows _ r)
  perform-Follows (Request.base32_encode r b) h =
      as_reference-Follows _ (FollowsCodecs.base32_encode-Follows r b)
  perform-Follows (Request.base32_decode r b) h =
      as_reference-Follows _ (FollowsCodecs.base32_decode-Follows r b)
  perform-Follows (Request.secp256k1_create_public_key k b) h =
      as_reference-Follows _ (KeyFollows.create_public_key-Follows _ k b)
  perform-Follows (Request.secp256k1_sign k m) h =
      as_reference-Follows _ (KeyFollows.sign-Follows _ k m)
  perform-Follows (Request.secp256k1_eth_sign k m b) h =
      as_references-Follows _ (KeyFollows.eth_sign-Follows _ k m b)
  perform-Follows (Request.ed25519_create_public_key k) h =
      as_reference-Follows _ (EdFollows.create_public_key-Follows _ k)
  perform-Follows (Request.ed25519_sign k m n) h =
      as_reference-Follows _ (EdFollows.sign-Follows _ k m n)
  perform-Follows (Request.ed25519_verify k g m n) h =
      as_verdict-Follows _ (EdFollows.verify-Follows _ k g m n)
  perform-Follows (Request.curve25519_create_public_key k) h =
      as_reference-Follows _ (EdFollows.curve25519_create_public_key-Follows _ k)
  perform-Follows (Request.curve25519_create_shared_key k p) h =
      as_reference-Follows _ (EdFollows.curve25519_create_shared_key-Follows _ k p)
  perform-Follows (Request.aes_encrypt k d i mode) h =
      as_reference-Follows _ (AesFollows.encrypt-Follows _ k d i mode)
  perform-Follows (Request.aes_decrypt k d i mode) h =
      as_reference-Follows _ (AesFollows.decrypt-Follows _ k d i mode)
  perform-Follows (Request.secp256k1_verify k g m) h = cc

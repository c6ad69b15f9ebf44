-- ===== src/Native/Kept.antt =====
-- The native functions, as requests, and the validity of the machine.
use chain_wallet.Common.{ℕ, List, [], ◌∷◌, some}
use chain_wallet.Jni.Machine.{M, ◌>>=◌}
use chain_wallet.Jni.Keeps.{Keeps, Keeps-bind, Keeps-pure}
use chain_wallet.Primitives.{Primitives}
use chain_wallet.CryptoJni.DigestTable.{Algorithm, call}
use chain_wallet.CryptoJni.Digests
use chain_wallet.CryptoJni.Keyed
use chain_wallet.CryptoJni.KeptDigests
use chain_wallet.CryptoJni.KeptKeyed
use chain_wallet.CryptoJni.KeptBlake
use chain_wallet.CryptoJni.KeptCodecs
use chain_wallet.Secp256k1Jni
use chain_wallet.Ed25519Jni
use chain_wallet.AesJni
use chain_wallet.Native.{Library, Request, Reply, perform, perform_all}

call-Keeps : (c : Primitives) (a : Algorithm) (r : ℕ) → Keeps (call c a r)
unfolding Digests.sha256 Digests.sha512 Digests.sha3_224 Digests.sha3_256 Digests.sha3_384
    Digests.sha3_512 Digests.keccak_224 Digests.keccak_256 Digests.keccak_384 Digests.keccak_512
    Digests.double_sha256 Digests.double_sha3_256 Digests.double_keccak_256
call-Keeps c Algorithm.sha256 r = KeptDigests.copy_digest-Keeps _ _ r
call-Keeps c Algorithm.sha512 r = KeptDigests.copy_digest-Keeps _ _ r
call-Keeps c Algorithm.double_sha256 r = KeptDigests.copy_double_digest-Keeps _ _ r
call-Keeps c Algorithm.double_sha3_256 r = KeptDigests.critical_double_digest-Keeps _ _ r
call-Keeps c Algorithm.double_keccak_256 r = KeptDigests.critical_double_digest-Keeps _ _ r
call-Keeps c _ r = KeptDigests.critical_digest-Keeps _ _ r

answer-Keeps : {A : Type 0} (f : A → Reply) (m : M A) → Keeps m → Keeps (m >>= λ a s. some (f a, s))
answer-Keeps f m k = Keeps-bind m _ k λ a. Keeps-pure (f a)

pub perform-Keeps : (l : Library) (q : Request) → Keeps (perform l q)
unfolding perform Keyed.hmac_sha256 Keyed.hmac_sha512 Keyed.pbkdf2_hmac_sha256
    Keyed.pbkdf2_hmac_sha512
perform-Keeps l (Request.hash a r) = answer-Keeps _ _ (call-Keeps _ a r)
perform-Keeps l (Request.ripemd160 r) = answer-Keeps _ _ (KeptDigests.ripemd160-Keeps _ r)
perform-Keeps l (Request.blake_256 r) = answer-Keeps _ _ (KeptBlake.blake_256-Keeps _ r)
perform-Keeps l (Request.hmac_sha256 k m) = answer-Keeps _ _ (KeptKeyed.hmac-Keeps _ _ k m)
perform-Keeps l (Request.hmac_sha512 k m) = answer-Keeps _ _ (KeptKeyed.hmac-Keeps _ _ k m)
perform-Keeps l (Request.pbkdf2_hmac_sha256 p s i n) =
    answer-Keeps _ _ (KeptKeyed.pbkdf2-Keeps _ p s i n)
perform-Keeps l (Request.pbkdf2_hmac_sha512 p s i n) =
    answer-Keeps _ _ (KeptKeyed.pbkdf2-Keeps _ p s i n)
perform-Keeps l (Request.blake2b r n) = answer-Keeps _ _ (KeptBlake.blake2b-Keeps _ r n)
perform-Keeps l (Request.blake2s r n) = answer-Keeps _ _ (KeptBlake.blake2s-Keeps _ r n)
perform-Keeps l (Request.blake2b_with_key r k n) =
    answer-Keeps _ _ (KeptBlake.blake2b_with_key-Keeps _ r k n)
perform-Keeps l (Request.blake2s_with_key r k n) =
    answer-Keeps _ _ (KeptBlake.blake2s_with_key-Keeps _ r k n)
perform-Keeps l (Request.hex_to_str r) = answer-Keeps _ _ (KeptCodecs.hex_to_str-Keeps r)
perform-Keeps l (Request.str_to_hex r) = answer-Keeps _ _ (KeptCodecs.str_to_hex-Keeps r)
perform-Keeps l (Request.base58_encode r) = answer-Keeps _ _ (KeptCodecs.base58_encode-Keeps r)
perform-Keeps l (Request.base58_decode r) = answer-Keeps _ _ (KeptCodecs.base58_decode-Keeps r)
perform-Keeps l (Request.sig_to_der r) = answer-Keeps _ _ (KeptCodecs.sig_to_der-Keeps r)
perform-Keeps l (Request.der_to_sig r) = answer-Keeps _ _ (KeptCodecs.der_to_sig-Keeps r)
perform-Keeps l (Request.base58_encode_check r) =
    answer-Keeps _ _ (KeptCodecs.base58_encode_check-Keeps _ r)
perform-Keeps l (Request.base58_decode_check r) =
    answer-Keeps _ _ (KeptCodecs.base58_decode_check-Keeps _ r)
perform-Keeps l (Request.base32_encode r b) = answer-Keeps _ _ (KeptCodecs.base32_encode-Keeps r b)
perform-Keeps l (Request.base32_decode r b) = answer-Keeps _ _ (KeptCodecs.base32_decode-Keeps r b)
perform-Keeps l (Request.secp256k1_create_public_key k b) =
    answer-Keeps _ _ (Secp256k1Jni.Kept.create_public_key-Keeps _ k b)
perform-Keeps l (Request.secp256k1_sign k m) = answer-Keeps _ _ (Secp256k1Jni.Kept.sign-Keeps _ k m)
perform-Keeps l (Request.secp256k1_eth_sign k m b) =
    answer-Keeps _ _ (Secp256k1Jni.Kept.eth_sign-Keeps _ k m b)
perform-Keeps l (Request.secp256k1_verify k g m) =
    answer-Keeps _ _ (Secp256k1Jni.Kept.verify-Keeps _ k g m)
perform-Keeps l (Request.ed25519_create_public_key k) =
    answer-Keeps _ _ (Ed25519Jni.Kept.create_public_key-Keeps _ k)
perform-Keeps l (Request.ed25519_sign k m n) = answer-Keeps _ _ (Ed25519Jni.Kept.sign-Keeps _ k m n)
perform-Keeps l (Request.ed25519_verify k g m n) =
    answer-Keeps _ _ (Ed25519Jni.Kept.verify-Keeps _ k g m n)
perform-Keeps l (Request.curve25519_create_public_key k) =
    answer-Keeps _ _ (Ed25519Jni.Kept.curve25519_create_public_key-Keeps _ k)
perform-Keeps l (Request.curve25519_create_shared_key k p) =
    answer-Keeps _ _ (Ed25519Jni.Kept.curve25519_create_shared_key-Keeps _ k p)
perform-Keeps l (Request.aes_encrypt k d i mode) =
    answer-Keeps _ _ (AesJni.Kept.encrypt-Keeps _ k d i mode)
perform-Keeps l (Request.aes_decrypt k d i mode) =
    answer-Keeps _ _ (AesJni.Kept.decrypt-Keeps _ k d i mode)

pub perform_all-Keeps : (l : Library) (qs : List Request) → Keeps (perform_all l qs)
unfolding perform_all
perform_all-Keeps l [] = Keeps-pure []
perform_all-Keeps l (q ∷ qs) =
    Keeps-bind _ _ (perform-Keeps l q)
      λ reply. Keeps-bind _ _ (perform_all-Keeps l qs) λ replies. Keeps-pure (reply ∷ replies)

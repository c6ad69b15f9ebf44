-- ===== src/Native/Moves.antt =====
-- The native functions, as requests, leave as many critical regions open as they find.
use chain_wallet.Common.{ℕ, ◌≡◌, Bool, true, false, some, Bool-cases, inl, inr}
use chain_wallet.Jni.Machine.{M, ◌>>=◌}
use chain_wallet.Jni.Moves.{Allowed, anywhere, Moves, still, Moves-bind, Moves-pure}
use chain_wallet.Primitives.{Primitives}
use chain_wallet.CryptoJni.DigestTable.{Algorithm, call}
use chain_wallet.CryptoJni.Digests
use chain_wallet.CryptoJni.Keyed
use chain_wallet.CryptoJni.MovesDigests
use chain_wallet.CryptoJni.MovesBlake2s
use chain_wallet.CryptoJni.MovesCodecs
use chain_wallet.Secp256k1Jni.Moves as KeyMoves
use chain_wallet.Ed25519Jni.Moves as EdMoves
use chain_wallet.AesJni.Moves as AesMoves
use chain_wallet.Native.{Library, Request, Reply, perform}

answer-Moves :
    {A : Type 0} {calm : Bool} {i : ℕ} (f : A → Reply) (m : M A)
    → Moves calm i (still i) m
    → Moves calm i (still i) (m >>= λ a s. some (f a, s))
answer-Moves f m k = Moves-bind m _ k λ a. Moves-pure (f a)

call-Moves :
    {calm : Bool} {i : ℕ} (ok : Allowed calm i) (c : Primitives) (a : Algorithm) (r : ℕ)
    → Moves calm i (still i) (call c a r)
unfolding Digests.sha256 Digests.sha512 Digests.sha3_224 Digests.sha3_256 Digests.sha3_384
    Digests.sha3_512 Digests.keccak_224 Digests.keccak_256 Digests.keccak_384 Digests.keccak_512
    Digests.double_sha256 Digests.double_sha3_256 Digests.double_keccak_256
call-Moves ok c Algorithm.sha256 r = MovesDigests.copy_digest-Moves ok _ _ r
call-Moves ok c Algorithm.sha512 r = MovesDigests.copy_digest-Moves ok _ _ r
call-Moves ok c Algorithm.double_sha256 r = MovesDigests.copy_double_digest-Moves ok _ _ r
call-Moves ok c Algorithm.double_sha3_256 r = MovesDigests.critical_double_digest-Moves ok _ _ r
call-Moves ok c Algorithm.double_keccak_256 r = MovesDigests.critical_double_digest-Moves ok _ _ r
call-Moves ok c _ r = MovesDigests.critical_digest-Moves ok _ _ r

-- The requests whose functions take over two arrays in critical regions: the length of the second is asked for
-- inside the region of the first.
abbrev pub is_quiet : Request → Bool
is_quiet (Request.hmac_sha256 k m) = false
is_quiet (Request.hmac_sha512 k m) = false
is_quiet (Request.blake2b_with_key r k n) = false
is_quiet (Request.blake2s_with_key r k n) = false
is_quiet (Request.curve25519_create_shared_key k p) = false
is_quiet _ = true

module _ {calm : Bool} {i : ℕ} (ok : Allowed calm i) (l : Library) where
  pub quiet-Moves : (q : Request) → is_quiet q ≡ true → Moves calm i (still i) (perform l q)
  unfolding perform Keyed.hmac_sha256 Keyed.hmac_sha512 Keyed.pbkdf2_hmac_sha256
      Keyed.pbkdf2_hmac_sha512
  quiet-Moves (Request.hash a r) h = answer-Moves _ _ (call-Moves ok l.primitives a r)
  quiet-Moves (Request.ripemd160 r) h = answer-Moves _ _ (MovesDigests.ripemd160-Moves ok _ r)
  quiet-Moves (Request.blake_256 r) h = answer-Moves _ _ (MovesDigests.blake_256-Moves ok _ r)
  quiet-Moves (Request.pbkdf2_hmac_sha256 p s i n) h =
      answer-Moves _ _ (MovesDigests.pbkdf2-Moves ok _ p s i n)
  quiet-Moves (Request.pbkdf2_hmac_sha512 p s i n) h =
      answer-Moves _ _ (MovesDigests.pbkdf2-Moves ok _ p s i n)
  quiet-Moves (Request.blake2b r n) h = answer-Moves _ _ (MovesDigests.blake2b-Moves ok _ r n)
  quiet-Moves (Request.blake2s r n) h = answer-Moves _ _ (MovesBlake2s.blake2s-Moves ok _ r n)
  quiet-Moves (Request.hex_to_str r) h = answer-Moves _ _ (MovesCodecs.hex_to_str-Moves ok r)
  quiet-Moves (Request.str_to_hex r) h = answer-Moves _ _ (MovesCodecs.str_to_hex-Moves ok r)
  quiet-Moves (Request.base58_encode r) h = answer-Moves _ _ (MovesCodecs.base58_encode-Moves ok r)
  quiet-Moves (Request.base58_decode r) h = answer-Moves _ _ (MovesCodecs.base58_decode-Moves ok r)
  quiet-Moves (Request.sig_to_der r) h = answer-Moves _ _ (MovesCodecs.sig_to_der-Moves ok r)
  quiet-Moves (Request.der_to_sig r) h = answer-Moves _ _ (MovesCodecs.der_to_sig-Moves ok r)
  quiet-Moves (Request.base58_encode_check r) h =
      answer-Moves _ _ (MovesCodecs.base58_encode_check-Moves ok r _)
  quiet-Moves (Request.base58_decode_check r) h =
      answer-Moves _ _ (MovesCodecs.base58_decode_check-Moves ok r _)
  quiet-Moves (Request.base32_encode r b) h =
      answer-Moves _ _ (MovesCodecs.base32_encode-Moves ok r b)
  quiet-Moves (Request.base32_decode r b) h =
      answer-Moves _ _ (MovesCodecs.base32_decode-Moves ok r b)
  quiet-Moves (Request.secp256k1_create_public_key k b) h =
      answer-Moves _ _ (KeyMoves.create_public_key-Moves ok _ k b)
  quiet-Moves (Request.secp256k1_sign k m) h = answer-Moves _ _ (KeyMoves.sign-Moves ok _ k m)
  quiet-Moves (Request.secp256k1_eth_sign k m b) h =
      answer-Moves _ _ (KeyMoves.eth_sign-Moves ok _ k m b)
  quiet-Moves (Request.ed25519_create_public_key k) h =
      answer-Moves _ _ (EdMoves.create_public_key-Moves ok _ k)
  quiet-Moves (Request.ed25519_sign k m n) h = answer-Moves _ _ (EdMoves.sign-Moves ok _ k m n)
  quiet-Moves (Request.ed25519_verify k g m n) h =
      answer-Moves _ _ (EdMoves.verify-Moves ok _ k g m n)
  quiet-Moves (Request.curve25519_create_public_key k) h =
      answer-Moves _ _ (EdMoves.curve25519_create_public_key-Moves ok _ k)
  quiet-Moves (Request.aes_encrypt k d i mode) h =
      answer-Moves _ _ (AesMoves.encrypt-Moves ok _ k d i mode)
  quiet-Moves (Request.aes_decrypt k d i mode) h =
      answer-Moves _ _ (AesMoves.decrypt-Moves ok _ k d i mode)
  quiet-Moves (Request.secp256k1_verify k g m) h =
      answer-Moves _ _ (KeyMoves.verify-Moves ok _ k g m)
  quiet-Moves (Request.hmac_sha256 k m) h = cc
  quiet-Moves (Request.hmac_sha512 k m) h = cc
  quiet-Moves (Request.blake2b_with_key r k n) h = cc
  quiet-Moves (Request.blake2s_with_key r k n) h = cc
  quiet-Moves (Request.curve25519_create_shared_key k p) h = cc

module _ {i : ℕ} (l : Library) where
  loud-Moves : (q : Request) → is_quiet q ≡ false → Moves false i (still i) (perform l q)
  unfolding perform Keyed.hmac_sha256 Keyed.hmac_sha512 Keyed.pbkdf2_hmac_sha256
      Keyed.pbkdf2_hmac_sha512
  loud-Moves (Request.hmac_sha256 k m) h = answer-Moves _ _ (MovesDigests.hmac-Moves _ _ k m)
  loud-Moves (Request.hmac_sha512 k m) h = answer-Moves _ _ (MovesDigests.hmac-Moves _ _ k m)
  loud-Moves (Request.blake2b_with_key r k n) h =
      answer-Moves _ _ (MovesDigests.blake2b_with_key-Moves _ r k n)
  loud-Moves (Request.blake2s_with_key r k n) h =
      answer-Moves _ _ (MovesDigests.blake2s_with_key-Moves _ r k n)
  loud-Moves (Request.curve25519_create_shared_key k p) h =
      answer-Moves _ _ (EdMoves.curve25519_create_shared_key-Moves _ k p)
  loud-Moves q h = cc

  pub perform-Moves : (q : Request) → Moves false i (still i) (perform l q)
  perform-Moves q = elim (Bool-cases (is_quiet q)) [
    | inl quiet ↦ quiet-Moves (anywhere i) l q quiet
    | inr loud ↦ loud-Moves q loud
  ]

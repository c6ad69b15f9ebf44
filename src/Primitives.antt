-- ===== src/Primitives.antt =====
-- The cryptographic primitives that the wrappers call: the copies of other projects' code in
-- native-crypto (sha2.c, sha3.c, ripemd160.c, blake*.c, hmac.c, pbkdf2.c). They are parameters here,
-- functions of the bytes that the pointers and lengths of a call delimit, with the lengths of
-- their results, which the headers of that code document.
use chain_wallet.Common.{ℕ, ◌≡◌, Bytes, [], length, Option, none, some, IsBytes}

pub record Primitives : Type 0 where
  pub sha256 : Bytes → Bytes
  pub sha512 : Bytes → Bytes
  pub sha3_224 : Bytes → Bytes
  pub sha3_256 : Bytes → Bytes
  pub sha3_384 : Bytes → Bytes
  pub sha3_512 : Bytes → Bytes
  pub keccak_224 : Bytes → Bytes
  pub keccak_256 : Bytes → Bytes
  pub keccak_384 : Bytes → Bytes
  pub keccak_512 : Bytes → Bytes
  pub ripemd160 : Bytes → Bytes
  pub blake256 : Bytes → Bytes
  pub length-sha256 : (m : Bytes) → length (sha256 m) ≡ 32
  pub length-sha512 : (m : Bytes) → length (sha512 m) ≡ 64
  pub length-sha3_224 : (m : Bytes) → length (sha3_224 m) ≡ 28
  pub length-sha3_256 : (m : Bytes) → length (sha3_256 m) ≡ 32
  pub length-sha3_384 : (m : Bytes) → length (sha3_384 m) ≡ 48
  pub length-sha3_512 : (m : Bytes) → length (sha3_512 m) ≡ 64
  pub length-keccak_224 : (m : Bytes) → length (keccak_224 m) ≡ 28
  pub length-keccak_256 : (m : Bytes) → length (keccak_256 m) ≡ 32
  pub length-keccak_384 : (m : Bytes) → length (keccak_384 m) ≡ 48
  pub length-keccak_512 : (m : Bytes) → length (keccak_512 m) ≡ 64
  pub length-ripemd160 : (m : Bytes) → length (ripemd160 m) ≡ 20
  pub length-blake256 : (m : Bytes) → length (blake256 m) ≡ 32
  -- the key, then the message
  pub hmac_sha256 : Bytes → Bytes → Bytes
  pub hmac_sha512 : Bytes → Bytes → Bytes
  pub length-hmac_sha256 : (k m : Bytes) → length (hmac_sha256 k m) ≡ 32
  pub length-hmac_sha512 : (k m : Bytes) → length (hmac_sha512 k m) ≡ 64
  -- the password, the salt, the iterations and the length of the key that is derived
  pub pbkdf2_hmac_sha256 : Bytes → Bytes → ℕ → ℕ → Bytes
  pub pbkdf2_hmac_sha512 : Bytes → Bytes → ℕ → ℕ → Bytes
  pub length-pbkdf2_hmac_sha256 : (p s : Bytes) (i n : ℕ) → length (pbkdf2_hmac_sha256 p s i n) ≡ n
  pub length-pbkdf2_hmac_sha512 : (p s : Bytes) (i n : ℕ) → length (pbkdf2_hmac_sha512 p s i n) ≡ n
  -- the message and the length; `none` is the status -1
  pub blake2b : Bytes → ℕ → Option Bytes
  pub blake2s : Bytes → ℕ → Option Bytes
  pub length-blake2b : (m : Bytes) (n : ℕ) {h : Bytes} → blake2b m n ≡ some h → length h ≡ n
  pub length-blake2s : (m : Bytes) (n : ℕ) {h : Bytes} → blake2s m n ≡ some h → length h ≡ n
  -- the message, the key and the length; an empty key has the status -1
  pub blake2b_key : Bytes → Bytes → ℕ → Option Bytes
  pub blake2s_key : Bytes → Bytes → ℕ → Option Bytes
  pub length-blake2b_key :
      (m k : Bytes) (n : ℕ) {h : Bytes} → blake2b_key m k n ≡ some h → length h ≡ n
  pub length-blake2s_key :
      (m k : Bytes) (n : ℕ) {h : Bytes} → blake2s_key m k n ≡ some h → length h ≡ n
  pub blake2b_key-empty : (m : Bytes) (n : ℕ) → blake2b_key m [] n ≡ none
  pub blake2s_key-empty : (m : Bytes) (n : ℕ) → blake2s_key m [] n ≡ none
  pub sha256-IsBytes : (m : Bytes) → IsBytes (sha256 m)

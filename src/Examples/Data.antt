-- ===== src/Examples/Data.antt =====
-- Instances of the parameters, and a machine with a few arrays and strings.
use chain_wallet.Common.{
  inl, ℕ, zero, suc, ◌≡◌, ◌<◌, refl, ◌%◌, ◌+◌, Bool, true, false, Option, none, some, [], ◌∷◌,
  Bytes, IsBytes, codes, zeros, length, ap, length-replicate, replicate, ltb, ◌&&◌, if◌then◌else◌,
  arith,
}
use chain_wallet.Jni.Machine.{Jvm}
use chain_wallet.Primitives.{Primitives}
use chain_wallet.Secp256k1.{Ecdsa, Canonic, passes}
use chain_wallet.Ed25519Jni.{Donna}
use chain_wallet.AesJni.{Aes, Chained}
use chain_wallet.Authority.{Android}

pub zeros-IsBytes : (n : ℕ) → IsBytes (zeros n)
zeros-IsBytes zero = tt
zeros-IsBytes (suc n) = (omega arith, zeros-IsBytes n)

-- A digest of 64 bytes at most.
abbrev pub sized_or_none : Bytes → ℕ → Option Bytes
sized_or_none m n = if ltb 64 n then none else some (replicate n 9)

pub length-sized_or_none :
    (m : Bytes) (n : ℕ) {h : Bytes} → sized_or_none m n ≡ some h → length h ≡ n
length-sized_or_none m n {h} e = ground (arith, length-replicate {A = ℕ} n 9)

-- The same with a key, which must not be empty.
abbrev pub keyed_or_none : Bytes → Bytes → ℕ → Option Bytes
keyed_or_none m [] n = none
keyed_or_none m (b ∷ k) n = sized_or_none m n

pub length-keyed_or_none :
    (m k : Bytes) (n : ℕ) {h : Bytes} → keyed_or_none m k n ≡ some h → length h ≡ n
length-keyed_or_none m [] n {h} e = cc
length-keyed_or_none m (b ∷ k) n {h} e = length-sized_or_none m n e

abbrev pub primitives : Primitives
primitives = record {
  sha256 = λ m. zeros 32;
  sha512 = λ m. replicate 64 2;
  sha3_224 = λ m. replicate 28 3;
  sha3_256 = λ m. replicate 32 4;
  sha3_384 = λ m. replicate 48 5;
  sha3_512 = λ m. replicate 64 6;
  keccak_224 = λ m. replicate 28 7;
  keccak_256 = λ m. replicate 32 8;
  keccak_384 = λ m. replicate 48 9;
  keccak_512 = λ m. replicate 64 10;
  ripemd160 = λ m. replicate 20 11;
  blake256 = λ m. replicate 32 12;
  length-sha256 = λ m. refl;
  length-sha512 = λ m. refl;
  length-sha3_224 = λ m. refl;
  length-sha3_256 = λ m. refl;
  length-sha3_384 = λ m. refl;
  length-sha3_512 = λ m. refl;
  length-keccak_224 = λ m. refl;
  length-keccak_256 = λ m. refl;
  length-keccak_384 = λ m. refl;
  length-keccak_512 = λ m. refl;
  length-ripemd160 = λ m. refl;
  length-blake256 = λ m. refl;
  hmac_sha256 = λ k m. replicate 32 13;
  hmac_sha512 = λ k m. replicate 64 14;
  length-hmac_sha256 = λ k m. refl;
  length-hmac_sha512 = λ k m. refl;
  pbkdf2_hmac_sha256 = λ p s i n. replicate n 15;
  pbkdf2_hmac_sha512 = λ p s i n. replicate n 16;
  length-pbkdf2_hmac_sha256 = λ p s i n. length-replicate n 15;
  length-pbkdf2_hmac_sha512 = λ p s i n. length-replicate n 16;
  blake2b = sized_or_none;
  blake2s = sized_or_none;
  length-blake2b = length-sized_or_none;
  length-blake2s = length-sized_or_none;
  blake2b_key = keyed_or_none;
  blake2s_key = keyed_or_none;
  length-blake2b_key = length-keyed_or_none;
  length-blake2s_key = length-keyed_or_none;
  blake2b_key-empty = λ m n. refl;
  blake2s_key-empty = λ m n. refl;
  sha256-IsBytes = λ m. zeros-IsBytes 32;
}

abbrev pub signature : Bytes
signature = replicate 64 1

abbrev pub sign_if : Bool → Option (Bytes × ℕ)
sign_if b = if b then some (signature, 0) else none

abbrev pub sign_with : Option Canonic → Option (Bytes × ℕ)
sign_with t = sign_if (passes t 0 signature)

sign_with-made :
    (b : Bool) (sig : Bytes) (v : ℕ)
    → sign_if b ≡ some (sig, v)
    → (b ≡ true) × (sig ≡ signature) × (v ≡ 0)
sign_with-made true sig v h = (refl, cc, cc)
sign_with-made false sig v h = cc

pub length-sign_with :
    (k d : Bytes) (t : Option Canonic) {sig : Bytes} {v : ℕ}
    → sign_with t ≡ some (sig, v)
    → length sig ≡ 64
length-sign_with k d t {sig} {v} h = ap length (sign_with-made (passes t 0 signature) sig v h).1

pub sign_with-lt :
    (k d : Bytes) (t : Option Canonic) {sig : Bytes} {v : ℕ} → sign_with t ≡ some (sig, v) → v < 4
sign_with-lt k d t {sig} {v} h =
    let none_yet : v ≡ 0 = (sign_with-made (passes t 0 signature) sig v h).2 in omega arith

pub sign_with-passes :
    (k d : Bytes) (t : Option Canonic) {sig : Bytes} {v : ℕ}
    → sign_with t ≡ some (sig, v)
    → passes t v sig ≡ true
sign_with-passes k d t {sig} {v} h =
    let made = sign_with-made (passes t 0 signature) sig v h in rw (made.1, made.2) made.0

abbrev pub ecdsa : Ecdsa
ecdsa = record {
  public_key33 = λ k. replicate 33 2;
  public_key65 = λ k. replicate 65 4;
  sign_digest = λ k d t. sign_with t;
  verify_digest = λ p sig d. 0;
  length-public_key33 = λ k. refl;
  length-public_key65 = λ k. refl;
  compressed-public_key33 = λ k. inl refl;
  length-sign_digest = length-sign_with;
  sign_digest-lt = sign_with-lt;
  sign_digest-passes = sign_with-passes;
}

abbrev pub donna : Donna
donna = record {
  publickey = λ k. replicate 32 3;
  sign = λ m k. replicate 64 5;
  sign_open = λ m k sig. 1;
  scalarmult_basepoint = λ k. replicate 32 9;
  scalarmult = λ k p. replicate 32 8;
  length-publickey = λ k. refl;
  length-sign = λ m k. refl;
  length-scalarmult_basepoint = λ k. refl;
  length-scalarmult = λ k p. refl;
}

-- A cipher that leaves the data alone, and counts the IV's first byte up.
abbrev pub next_iv : Bytes → Bytes
next_iv [] = []
next_iv (b ∷ v) = ((b + 1) % 256) ∷ v

abbrev pub plain : Chained
plain ctx d v = some (d, next_iv v)

abbrev pub aes : Aes
aes = record {
  encrypt_key = λ k. if ltb 16 (length k) then none else some k;
  decrypt_key = λ k. if ltb 16 (length k) then none else some k;
  ecb_encrypt = λ ctx d. some d;
  ecb_decrypt = λ ctx d. some d;
  cbc_encrypt = plain;
  cbc_decrypt = plain;
  cfb_encrypt = plain;
  cfb_decrypt = plain;
  ofb_encrypt = plain;
  ofb_decrypt = plain;
  ctr_encrypt = plain;
  ctr_decrypt = plain;
}

abbrev pub digest_of_app : Bytes
digest_of_app =
    0x9e ∷ 0x08 ∷ 0xce ∷ 0x4c ∷ 0x3f ∷ 0x5d ∷ 0x24 ∷ 0x31 ∷ 0x97 ∷ 0xaf ∷ 0xa5 ∷ 0x3d ∷ 0xd9 ∷ 0xe2
    ∷ 0x25 ∷ 0x5c ∷ 0x82 ∷ 0x5c ∷ 0xad ∷ 0x3e ∷ []

-- A device of version 28 or more on which the app's own certificate is found.
abbrev pub device : Android
device = record {
  sdk_property = some (codes "30");
  atoi = λ t. 30;
  get_package_manager = λ o. some 1;
  get_package_name = λ o. some 2;
  get_package_info = λ m n flags. some 3;
  signatures = λ i. none;
  signing_info = λ i. some 4;
  get_apk_contents_signers = λ i. some 5;
  first_element = λ a. some 6;
  to_byte_array = λ o. some (7 ∷ []);
  encoded_certificate = λ m. some m;
  sha1 = λ c. digest_of_app;
}

-- Arrays 0 (a message), 1 and 2 (of 32 bytes), 3 (of 64), 4 (of 16), 5 (of 33), 6 (of 40), 7 and 8 (of 16); string 20
-- is a hexadecimal text.
abbrev pub machine : Jvm
machine = record {
  arrays =
      (8, replicate 16 0)
      ∷ (7, replicate 16 0)
      ∷ (6, replicate 40 6)
      ∷ (5, replicate 33 2)
      ∷ (4, replicate 16 0)
      ∷ (3, signature)
      ∷ (2, replicate 32 8)
      ∷ (1, replicate 32 7)
      ∷ (0, 1 ∷ 2 ∷ 3 ∷ [])
      ∷ [];
  strings = (20, codes "0aff") ∷ [];
  next_ref = 30;
  blocks = [];
  next_address = 0;
  denials = [];
  open_regions = 0;
  unsafe_calls = 0;
}

abbrev pub are_bytes : Bytes → Bool
are_bytes [] = true
are_bytes (b ∷ v) = ltb b 256 && are_bytes v

pub are_bytes-IsBytes : (v : Bytes) → are_bytes v ≡ true → IsBytes v
are_bytes-IsBytes [] h = tt
are_bytes-IsBytes (b ∷ v) h = (ground arith, are_bytes-IsBytes v (ground arith))

pub plain-undone :
    (ctx ctx' d iv out v : Bytes) → plain ctx d iv ≡ some (out, v) → plain ctx' out iv ≡ some (d, v)
plain-undone ctx ctx' d iv out v h = cc

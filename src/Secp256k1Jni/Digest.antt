-- ===== src/Secp256k1Jni/Digest.antt =====
-- What the digests that secp256k1-wrapper.c passes to the curve are, and the keys and signatures
-- that come back.
use chain_wallet.Common.{
  ℕ, ◌-◌, ◌/◌, ◌%◌, ◌≡◌, refl, sym, ◌∙◌, Bool, Bool-cases, inl, inr, ==→eq, true, false, none, some,
  Bytes, length, arith, ◌==◌, if◌then◌else◌, ◌<◌, zeros, length-zeros, length-append,
}
use chain_wallet.Secp256k1
use chain_wallet.Secp256k1.{Ecdsa}
use chain_wallet.Secp256k1Jni

pub length-get_public :
    (e : Ecdsa) (k : Bytes) (compressed : Bool)
    → length (Secp256k1.get_public e k (if compressed then 1 else 0))
      ≡ (if compressed then 33 else 65)
unfolding Secp256k1.get_public
length-get_public e k true = e.length-public_key33 k
length-get_public e k false = e.length-public_key65 k

-- Whatever the message is, the padded digest has 32 bytes.
pub length-padding_list : (m : Bytes) → length (Secp256k1Jni.padding_list m) ≡ 32
unfolding Secp256k1Jni.padding_list
length-padding_list m =
    ground (
      arith,
      length-zeros 32,
      length-append (zeros (32 - length m)) m,
      length-zeros (32 - length m),
    )

-- A message of 32 bytes is its own padding.
pub padding_list-full : (m : Bytes) → length m ≡ 32 → Secp256k1Jni.padding_list m ≡ m
unfolding Secp256k1Jni.padding_list
padding_list-full m h = rw h refl

-- So `sign` signs the padded message on both branches.
pub sign_any-padded :
    (e : Ecdsa) (k m : Bytes)
    → Secp256k1Jni.sign_any e k m ≡ Secp256k1.sign e k (Secp256k1Jni.padding_list m)
unfolding Secp256k1Jni.sign_any
sign_any-padded e k m = ground (arith, padding_list-full m)

pub length-sign_any :
    (e : Ecdsa) (k m : Bytes) {sig : Bytes} {v : ℕ}
    → Secp256k1Jni.sign_any e k m ≡ some (sig, v)
    → length sig ≡ 64
unfolding Secp256k1.sign
length-sign_any e k m signed =
    e.length-sign_digest k (Secp256k1Jni.padding_list m) none (sym (sign_any-padded e k m) ∙ signed)

eth_sign_any-full :
    (e : Ecdsa) (k m : Bytes)
    → length m ≡ 32
    → Secp256k1Jni.eth_sign_any e k m ≡ Secp256k1.eth_sign e k m
unfolding Secp256k1Jni.eth_sign_any
eth_sign_any-full e k m h = rw h refl

canonic-lt : (v : ℕ) → v < 4 → (v / 2 % 2 == 0) ≡ true → v < 2
canonic-lt v h k = ground arith

-- The signature that `ethSign` makes of a message of 32 bytes has a recovery number of 0 or 1, so
-- that its recovery byte is 27 or 28, or 31 or 32 for a compressed key.
pub eth_sign_any-lt :
    (e : Ecdsa) (k m : Bytes) {sig : Bytes} {v : ℕ}
    → length m ≡ 32
    → Secp256k1Jni.eth_sign_any e k m ≡ some (sig, v)
    → v < 2
unfolding Secp256k1.eth_sign Secp256k1.ethereum_is_canonic
eth_sign_any-lt e k m {sig} {v} h signed =
    let made = sym (eth_sign_any-full e k m h) ∙ signed in
    canonic-lt v (e.sign_digest-lt k m _ made) (e.sign_digest-passes k m _ made)

-- A shorter message is signed without the test for that: as `sign` signs it.
pub eth_sign_any-short :
    (e : Ecdsa) (k m : Bytes)
    → length m < 32
    → Secp256k1Jni.eth_sign_any e k m ≡ Secp256k1Jni.sign_any e k m
unfolding Secp256k1Jni.eth_sign_any Secp256k1Jni.sign_any
eth_sign_any-short e k m h = ground arith

pub length-eth_sign_any :
    (e : Ecdsa) (k m : Bytes) {sig : Bytes} {v : ℕ}
    → Secp256k1Jni.eth_sign_any e k m ≡ some (sig, v)
    → length sig ≡ 64
unfolding Secp256k1Jni.eth_sign_any Secp256k1.eth_sign Secp256k1.sign
length-eth_sign_any e k m {sig} {v} signed = elim (Bool-cases (length m == 32)) [
  | inl h ↦
      e.length-sign_digest k m (some Secp256k1.ethereum_is_canonic)
        (sym (eth_sign_any-full e k m (==→eq _ 32 h)) ∙ signed)
  | inr h ↦ e.length-sign_digest k (Secp256k1Jni.padding_list m) none (sym (rw h refl) ∙ signed)
]

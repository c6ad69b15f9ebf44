-- ===== src/Secp256k1Jni/RoundTrip.antt =====
-- What `sign` makes, `verify` of secp256k1-wrapper.c accepts.
use chain_wallet.Common.{
  ℕ, ◌≡◌, refl, sym, ◌∙◌, Bool, true, false, none, some, Bytes, length, ◌≤◌, ◌<◌, ◌%◌, eq_self,
  IsBytes, take, take_all, arith,
}
use chain_wallet.Jni.Machine.{Jvm, M, pure, lookup, ◌>>=◌}
use chain_wallet.Jni.Steps.{ready, used, with_array, bind_step}
use chain_wallet.Jni.Arrays.{lookup-apart}
use chain_wallet.Base58.Value.{value}
use chain_wallet.Secp256k1
use chain_wallet.Secp256k1.{Ecdsa}
use chain_wallet.Secp256k1Jni
use chain_wallet.Secp256k1Jni.Digest.{length-sign_any, sign_any-padded}
use chain_wallet.Secp256k1Jni.PublicKey.{public_key_size-public_key33}
use chain_wallet.Secp256k1Jni.Laws.{leaked, sign_lem}
use chain_wallet.Secp256k1Jni.Verify.{verify_lem}

-- A client that signs message `q` with key `r`, and checks the result with the public key `p`.
abbrev pub sign_then_verify : Ecdsa → ℕ → ℕ → ℕ → M Bool
sign_then_verify e r q p = do
  signature ← Secp256k1Jni.sign e r q
  elim signature [ none ↦ pure false | some g ↦ Secp256k1Jni.verify e p g q ]

-- 32 bytes of a number above zero and below the order.
abbrev pub IsPrivateKey : Bytes → Type 0
IsPrivateKey k =
    IsBytes k × (length k ≡ 32) × (0 < value 256 0 k) × (value 256 0 k < Secp256k1.order)

-- A digest that is not a multiple of the order: `ecdsa_verify_digest` refuses one of zeros, which
-- `ecdsa_sign_digest` signs.
abbrev pub IsSignable : Bytes → Type 0
IsSignable d = IsBytes d × (length d ≡ 32) × (0 < value 256 0 d % Secp256k1.order)

-- The curve's code verifies with a public key what it signed with its private key.
abbrev pub IsCorrect : Ecdsa → Type 0
IsCorrect e =
    (k d sig : Bytes) (v : ℕ)
    → IsPrivateKey k
    → IsSignable d
    → e.sign_digest k d none ≡ some (sig, v)
    → e.verify_digest (e.public_key33 k) sig d ≡ 0

-- Over curve code that verifies what it signed with a valid key, of a digest that is no multiple of the
-- order, `verify` accepts the signature that `sign` made of a message of at most 32 bytes whose padding
-- is such a digest, with the compressed public key of the same valid key, where the curve's code does
-- sign, no request for memory is refused and the next reference is free. Only the signature's array
-- and its block are left.
pub verify-sign :
    (e : Ecdsa) (r q p : ℕ) (key message : Bytes) (s : Jvm) {sig : Bytes} {v : ℕ}
    → IsCorrect e
    → lookup r s.arrays ≡ some key
    → lookup q s.arrays ≡ some message
    → lookup p s.arrays ≡ some (e.public_key33 key)
    → IsPrivateKey key
    → IsSignable (Secp256k1Jni.padding_list message)
    → length message ≤ 32
    → lookup s.next_ref s.arrays ≡ none
    → Secp256k1Jni.sign_any e key message ≡ some (sig, v)
    → sign_then_verify e r q p (ready 0 s)
      ≡ some (true, ready 0 (used 3 (with_array sig (leaked sig s))))
unfolding Secp256k1.verify Secp256k1.sign
verify-sign e r q p key message s {sig} {v} correct has_key has_message has_public valid signable
      short free signed =
    let q_apart = lookup-apart q s.next_ref s.arrays has_message free in
    let p_apart = lookup-apart p s.next_ref s.arrays has_public free in
    let made = sym (sign_any-padded e key message) ∙ signed in
    let size = public_key_size-public_key33 e key in
    let all_read = e.length-public_key33 key in
    let whole : take 33 (e.public_key33 key) ≡ e.public_key33 key =
      take_all 33 (e.public_key33 key) (omega arith) in
    let accepted = correct key (Secp256k1Jni.padding_list message) sig v valid signable made in
    bind_step _ _ (sign_lem e r q key message s has_key has_message (valid.1) short free signed) (
      verify_lem e p s.next_ref q (e.public_key33 key) sig message (with_array sig (leaked sig s))
        (rw p_apart has_public) (rw eq_self refl) (rw q_apart has_message) (omega arith)
        (length-sign_any e key message signed) short
      ∙ rw (size, whole, accepted) refl)

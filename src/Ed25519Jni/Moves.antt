-- ===== src/Ed25519Jni/Moves.antt =====
-- The functions of ed25519-wrapper.c leave as many critical regions open as they find; those that take
-- over one array at most in a region make no JNI call inside it.
use chain_wallet.Common.{ℕ, Bool, false}
use chain_wallet.Jni.Moves.{Allowed, anywhere, Moves, still}
use chain_wallet.Jni.MovesCalls.{moves_rules}
use chain_wallet.Ed25519Jni
use chain_wallet.Ed25519Jni.{Donna}

module _ {calm : Bool} {i : ℕ} (ok : Allowed calm i) (e : Donna) where
  pub create_public_key-Moves : (r : ℕ) → Moves calm i (still i) (Ed25519Jni.create_public_key e r)
  unfolding Ed25519Jni.create_public_key
  create_public_key-Moves r = search moves_rules depth 60 fits 4000

  pub sign-Moves : (r q n : ℕ) → Moves calm i (still i) (Ed25519Jni.sign e r q n)
  unfolding Ed25519Jni.sign
  sign-Moves r q n = search moves_rules depth 60 fits 4000

  pub verify-Moves : (r q u n : ℕ) → Moves calm i (still i) (Ed25519Jni.verify e r q u n)
  unfolding Ed25519Jni.verify
  verify-Moves r q u n = search moves_rules depth 60 fits 4000

  pub curve25519_create_public_key-Moves :
      (r : ℕ) → Moves calm i (still i) (Ed25519Jni.curve25519_create_public_key e r)
  unfolding Ed25519Jni.curve25519_create_public_key
  curve25519_create_public_key-Moves r = search moves_rules depth 60 fits 4000

pub curve25519_create_shared_key-Moves :
    {i : ℕ} (e : Donna) (r q : ℕ)
    → Moves false i (still i) (Ed25519Jni.curve25519_create_shared_key e r q)
unfolding Ed25519Jni.curve25519_create_shared_key
curve25519_create_shared_key-Moves e r q = search (anywhere, moves_rules) depth 60 fits 4000

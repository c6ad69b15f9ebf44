-- ===== src/Ed25519Jni/Follows.antt =====
-- The functions of ed25519-wrapper.c under refused memory.
use chain_wallet.Common.{ℕ}
use chain_wallet.Jni.Follows.{Follows, Never, IsMissing}
use chain_wallet.Jni.FollowsMethod.{follows_rules}
use chain_wallet.Ed25519Jni
use chain_wallet.Ed25519Jni.{Donna}

module _ (e : Donna) where
  pub create_public_key-Follows : (r : ℕ) → Follows IsMissing (Ed25519Jni.create_public_key e r)
  unfolding Ed25519Jni.create_public_key
  create_public_key-Follows r = search follows_rules depth 60 fits 4000

  pub sign-Follows : (r q n : ℕ) → Follows IsMissing (Ed25519Jni.sign e r q n)
  unfolding Ed25519Jni.sign
  sign-Follows r q n = search follows_rules depth 60 fits 4000

  pub verify-Follows : (r q u n : ℕ) → Follows Never (Ed25519Jni.verify e r q u n)
  unfolding Ed25519Jni.verify
  verify-Follows r q u n = search follows_rules depth 60 fits 4000

  pub curve25519_create_public_key-Follows :
      (r : ℕ) → Follows IsMissing (Ed25519Jni.curve25519_create_public_key e r)
  unfolding Ed25519Jni.curve25519_create_public_key
  curve25519_create_public_key-Follows r = search follows_rules depth 60 fits 4000

  pub curve25519_create_shared_key-Follows :
      (r q : ℕ) → Follows IsMissing (Ed25519Jni.curve25519_create_shared_key e r q)
  unfolding Ed25519Jni.curve25519_create_shared_key
  curve25519_create_shared_key-Follows r q = search follows_rules depth 60 fits 4000

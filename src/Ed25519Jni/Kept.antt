-- ===== src/Ed25519Jni/Kept.antt =====
-- The functions of ed25519-wrapper.c and the validity of the machine.
use chain_wallet.Common.{ℕ}
use chain_wallet.Jni.Keeps.{Keeps}
use chain_wallet.Jni.KeptMethod.{keeps_rules}
use chain_wallet.Ed25519Jni
use chain_wallet.Ed25519Jni.{Donna}

pub create_public_key-Keeps : (e : Donna) (r : ℕ) → Keeps (Ed25519Jni.create_public_key e r)
unfolding Ed25519Jni.create_public_key
create_public_key-Keeps e r = search keeps_rules depth 60 fits 4000

pub sign-Keeps : (e : Donna) (r q n : ℕ) → Keeps (Ed25519Jni.sign e r q n)
unfolding Ed25519Jni.sign
sign-Keeps e r q n = search keeps_rules depth 60 fits 4000

pub verify-Keeps : (e : Donna) (r q u n : ℕ) → Keeps (Ed25519Jni.verify e r q u n)
unfolding Ed25519Jni.verify
verify-Keeps e r q u n = search keeps_rules depth 60 fits 4000

pub curve25519_create_public_key-Keeps :
    (e : Donna) (r : ℕ) → Keeps (Ed25519Jni.curve25519_create_public_key e r)
unfolding Ed25519Jni.curve25519_create_public_key
curve25519_create_public_key-Keeps e r = search keeps_rules depth 60 fits 4000

pub curve25519_create_shared_key-Keeps :
    (e : Donna) (r q : ℕ) → Keeps (Ed25519Jni.curve25519_create_shared_key e r q)
unfolding Ed25519Jni.curve25519_create_shared_key
curve25519_create_shared_key-Keeps e r q = search keeps_rules depth 60 fits 4000

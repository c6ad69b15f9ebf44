-- ===== src/Secp256k1Jni/Kept.antt =====
-- The functions of secp256k1-wrapper.c and the validity of the machine.
use chain_wallet.Common.{ℕ, Bool, Option-cases, inl, inr}
use chain_wallet.Jni.Machine.{Ptr}
use chain_wallet.Jni.Keeps.{Keeps, Keeps-bind}
use chain_wallet.Secp256k1.{Ecdsa}
use chain_wallet.CryptoJni.KeptDigests.{bytes_rules}
use chain_wallet.Secp256k1Jni

pub create_public_key-Keeps :
    (e : Ecdsa) (r : ℕ) (b : Bool) → Keeps (Secp256k1Jni.create_public_key e r b)
unfolding Secp256k1Jni.create_public_key
create_public_key-Keeps e r b = search bytes_rules depth 60 fits 4000

pub sign_short-Keeps :
    (e : Ecdsa) (r q : ℕ) (p : Ptr) (n : ℕ) → Keeps (Secp256k1Jni.sign_short e r q p n)
unfolding Secp256k1Jni.sign_short
sign_short-Keeps e r q p n = Keeps-bind _ _ (search bytes_rules depth 60 fits 4000) λ x0.
    Keeps-bind _ _ (search bytes_rules depth 60 fits 4000) λ x1.
      Keeps-bind _ _ (search bytes_rules depth 60 fits 4000) λ x2.
        Keeps-bind _ _ (search bytes_rules depth 60 fits 4000) λ x3.
          elim (Option-cases (Secp256k1Jni.sign_any e x2 x3)) [
            | inl e ↦ rw e (search bytes_rules depth 60 fits 4000)
            | inr ((g, v), e) ↦ rw e (search bytes_rules depth 60 fits 4000)
          ]

pub sign-Keeps : (e : Ecdsa) (r q : ℕ) → Keeps (Secp256k1Jni.sign e r q)
unfolding Secp256k1Jni.sign
sign-Keeps e r q = search (bytes_rules, sign_short-Keeps) depth 60 fits 4000

pub eth_sign_short-Keeps :
    (e : Ecdsa) (r q : ℕ) (b : Bool) (p : Ptr) (n : ℕ)
    → Keeps (Secp256k1Jni.eth_sign_short e r q b p n)
unfolding Secp256k1Jni.eth_sign_short
eth_sign_short-Keeps e r q b p n = Keeps-bind _ _ (search bytes_rules depth 60 fits 4000) λ x0.
    Keeps-bind _ _ (search bytes_rules depth 60 fits 4000) λ x1.
      Keeps-bind _ _ (search bytes_rules depth 60 fits 4000) λ x2.
        Keeps-bind _ _ (search bytes_rules depth 60 fits 4000) λ x3.
          elim (Option-cases (Secp256k1Jni.eth_sign_any e x2 x3)) [
            | inl e ↦ rw e (search bytes_rules depth 60 fits 4000)
            | inr ((g, v), e) ↦ rw e (search bytes_rules depth 60 fits 4000)
          ]

pub eth_sign-Keeps : (e : Ecdsa) (r q : ℕ) (b : Bool) → Keeps (Secp256k1Jni.eth_sign e r q b)
unfolding Secp256k1Jni.eth_sign
eth_sign-Keeps e r q b = search (bytes_rules, eth_sign_short-Keeps) depth 60 fits 4000

pub read_public_key-Keeps : (p : Ptr) → Keeps (Secp256k1Jni.read_public_key p)
unfolding Secp256k1Jni.read_public_key
read_public_key-Keeps p = search bytes_rules

pub verify_short-Keeps :
    (e : Ecdsa) (r q u : ℕ) (p : Ptr) (n : ℕ) → Keeps (Secp256k1Jni.verify_short e r q u p n)
unfolding Secp256k1Jni.verify_short
verify_short-Keeps e r q u p n = search (read_public_key-Keeps, bytes_rules) depth 60 fits 4000

pub verify-Keeps : (e : Ecdsa) (r q u : ℕ) → Keeps (Secp256k1Jni.verify e r q u)
unfolding Secp256k1Jni.verify
verify-Keeps e r q u = search (bytes_rules, verify_short-Keeps) depth 60 fits 4000

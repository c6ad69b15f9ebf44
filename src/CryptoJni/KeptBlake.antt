-- ===== src/CryptoJni/KeptBlake.antt =====
-- The BLAKE wrappers of crypto-wrapper.c and the validity of the machine.
use chain_wallet.Common.{ℕ, Option-cases, inl, inr}
use chain_wallet.Jni.Machine.{Ptr}
use chain_wallet.Jni.Keeps.{Keeps, Keeps-bind}
use chain_wallet.CryptoJni.KeptDigests.{bytes_rules}
use chain_wallet.Primitives.{Primitives}
use chain_wallet.CryptoJni.Blake

pub checked_bytes-Keeps : (n : ℕ) (p : Ptr) → Keeps (Blake.checked_bytes n p)
unfolding Blake.checked_bytes
checked_bytes-Keeps n p = search bytes_rules depth 60 fits 4000

pub blake2b-Keeps : (c : Primitives) (r n : ℕ) → Keeps (Blake.blake2b c r n)
unfolding Blake.blake2b
blake2b-Keeps c r n = Keeps-bind _ _ (search bytes_rules depth 60 fits 4000) λ x0.
    Keeps-bind _ _ (search bytes_rules depth 60 fits 4000) λ x1.
      Keeps-bind _ _ (search bytes_rules depth 60 fits 4000) λ x2.
        elim (Option-cases (Blake.given x1 (c.blake2b x2 n))) [
          | inl e ↦ rw e (search bytes_rules depth 60 fits 4000)
          | inr (a, e) ↦ rw e (search (bytes_rules, checked_bytes-Keeps) depth 60 fits 4000)
        ]

pub blake2b_with_key-Keeps : (c : Primitives) (r q n : ℕ) → Keeps (Blake.blake2b_with_key c r q n)
unfolding Blake.blake2b_with_key
blake2b_with_key-Keeps c r q n = Keeps-bind _ _ (search bytes_rules depth 60 fits 4000) λ x0.
    Keeps-bind _ _ (search bytes_rules depth 60 fits 4000) λ x1.
      Keeps-bind _ _ (search bytes_rules depth 60 fits 4000) λ x2.
        Keeps-bind _ _ (search bytes_rules depth 60 fits 4000) λ x3.
          Keeps-bind _ _ (search bytes_rules depth 60 fits 4000) λ x4.
            elim (Option-cases (Blake.given x2 (c.blake2b_key x3 x4 n))) [
              | inl e ↦ rw e (search bytes_rules depth 60 fits 4000)
              | inr (a, e) ↦ rw e (search (bytes_rules, checked_bytes-Keeps) depth 60 fits 4000)
            ]

pub blake2s-Keeps : (c : Primitives) (r n : ℕ) → Keeps (Blake.blake2s c r n)
unfolding Blake.blake2s
blake2s-Keeps c r n = Keeps-bind _ _ (search bytes_rules depth 60 fits 4000) λ x0.
    Keeps-bind _ _ (search bytes_rules depth 60 fits 4000) λ x1.
      Keeps-bind _ _ (search bytes_rules depth 60 fits 4000) λ x2.
        elim (Option-cases (Blake.given x1 (c.blake2s x2 n))) [
          | inl e ↦ rw e (search bytes_rules depth 60 fits 4000)
          | inr (a, e) ↦ rw e (search (bytes_rules, checked_bytes-Keeps) depth 60 fits 4000)
        ]

pub blake2s_with_key-Keeps : (c : Primitives) (r q n : ℕ) → Keeps (Blake.blake2s_with_key c r q n)
unfolding Blake.blake2s_with_key
blake2s_with_key-Keeps c r q n = Keeps-bind _ _ (search bytes_rules depth 60 fits 4000) λ x0.
    Keeps-bind _ _ (search bytes_rules depth 60 fits 4000) λ x1.
      Keeps-bind _ _ (search bytes_rules depth 60 fits 4000) λ x2.
        Keeps-bind _ _ (search bytes_rules depth 60 fits 4000) λ x3.
          Keeps-bind _ _ (search bytes_rules depth 60 fits 4000) λ x4.
            elim (Option-cases (Blake.given x2 (c.blake2s_key x3 x4 n))) [
              | inl e ↦ rw e (search bytes_rules depth 60 fits 4000)
              | inr (a, e) ↦ rw e (search (bytes_rules, checked_bytes-Keeps) depth 60 fits 4000)
            ]

pub blake_256-Keeps : (c : Primitives) (r : ℕ) → Keeps (Blake.blake_256 c r)
unfolding Blake.blake_256
blake_256-Keeps c r = search (bytes_rules, checked_bytes-Keeps) depth 60 fits 4000

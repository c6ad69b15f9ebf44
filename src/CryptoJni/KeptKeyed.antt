-- ===== src/CryptoJni/KeptKeyed.antt =====
-- The keyed wrappers of crypto-wrapper.c and the validity of the machine.
use chain_wallet.Common.{ℕ, Bytes}
use chain_wallet.Jni.Machine.{Ptr}
use chain_wallet.Jni.Keeps.{Keeps}
use chain_wallet.CryptoJni.KeptDigests.{bytes_rules}
use chain_wallet.CryptoJni.Keyed

pub hmac-Keeps : (n : ℕ) (f : Bytes → Bytes → Bytes) (r q : ℕ) → Keeps (Keyed.hmac n f r q)
unfolding Keyed.hmac
hmac-Keeps n f r q = search bytes_rules depth 60 fits 4000

pub derive-Keeps :
    (f : Bytes → Bytes → ℕ → ℕ → Bytes) (r q i n : ℕ) (p : Ptr) (a : ℕ) (s : Ptr) (b : ℕ)
    → Keeps (Keyed.derive f r q i n p a s b)
unfolding Keyed.derive
derive-Keeps f r q i n p a s b = search bytes_rules depth 60 fits 4000

pub pbkdf2-Keeps :
    (f : Bytes → Bytes → ℕ → ℕ → Bytes) (r q i n : ℕ) → Keeps (Keyed.pbkdf2 f r q i n)
unfolding Keyed.pbkdf2
pbkdf2-Keeps f r q i n = search (bytes_rules, derive-Keeps) depth 60 fits 4000

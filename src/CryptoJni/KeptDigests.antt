-- ===== src/CryptoJni/KeptDigests.antt =====
-- The digest wrappers of crypto-wrapper.c and the validity of the machine.
use chain_wallet.Common.{ℕ, Bytes}
use chain_wallet.Jni.Machine.{Ptr}
use chain_wallet.Jni.Keeps.{Keeps}
use chain_wallet.Jni.KeptMethod.{
  call_rules, keeps_rules, copy_array_to_c-Keeps, critical_array_to_c-Keeps,
}
use chain_wallet.Primitives.{Primitives}
use chain_wallet.CryptoJni.Digests

pub return_bytes-Keeps : (n : ℕ) (p : Ptr) → Keeps (Digests.return_bytes n p)
unfolding Digests.return_bytes
return_bytes-Keeps n p = search keeps_rules depth 60 fits 3000

pub leak_bytes-Keeps : (n : ℕ) (p : Ptr) → Keeps (Digests.leak_bytes n p)
unfolding Digests.leak_bytes
leak_bytes-Keeps n p = search keeps_rules depth 60 fits 3000

pub ruleset bytes_rules = (keeps_rules, return_bytes-Keeps, leak_bytes-Keeps)

pub copy_digest-Keeps : (n : ℕ) (f : Bytes → Bytes) (r : ℕ) → Keeps (Digests.copy_digest n f r)
unfolding Digests.copy_digest
copy_digest-Keeps n f r = search bytes_rules depth 60 fits 3000

pub critical_digest-Keeps :
    (n : ℕ) (f : Bytes → Bytes) (r : ℕ) → Keeps (Digests.critical_digest n f r)
unfolding Digests.critical_digest
critical_digest-Keeps n f r = search bytes_rules depth 60 fits 3000

pub copy_double_digest-Keeps :
    (n : ℕ) (f : Bytes → Bytes) (r : ℕ) → Keeps (Digests.copy_double_digest n f r)
unfolding Digests.copy_double_digest
copy_double_digest-Keeps n f r = search bytes_rules depth 60 fits 3000

pub critical_double_digest-Keeps :
    (n : ℕ) (f : Bytes → Bytes) (r : ℕ) → Keeps (Digests.critical_double_digest n f r)
unfolding Digests.critical_double_digest
critical_double_digest-Keeps n f r = search bytes_rules depth 60 fits 3000

pub ripemd160-Keeps : (c : Primitives) (r : ℕ) → Keeps (Digests.ripemd160 c r)
unfolding Digests.ripemd160
ripemd160-Keeps c r = search bytes_rules depth 60 fits 3000

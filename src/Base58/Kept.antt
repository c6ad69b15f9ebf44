-- ===== src/Base58/Kept.antt =====
-- The functions of base58.c on the C heap and the validity of the machine.
use chain_wallet.Common.{ℕ, Bytes, Option-cases, inl, inr}
use chain_wallet.Jni.Machine.{Ptr}
use chain_wallet.Jni.Keeps.{Keeps, Keeps-bind}
use chain_wallet.Jni.KeptMethod.{call_rules}
use chain_wallet.Primitives.{Primitives}
use chain_wallet.Base58.Heap

pub touch-Keeps : (p : Ptr) (n : ℕ) → Keeps (Heap.touch p n)
unfolding Heap.touch
touch-Keeps p n = search call_rules

pub encode_nonempty-Keeps : (p : Ptr) (n : ℕ) → Keeps (Heap.encode_nonempty p n)
unfolding Heap.encode_nonempty
encode_nonempty-Keeps p n = search (call_rules, touch-Keeps) depth 60 fits 4000

pub base58_encode-Keeps : (p : Ptr) (n : ℕ) → Keeps (Heap.base58_encode p n)
unfolding Heap.base58_encode
base58_encode-Keeps p n = search (call_rules, encode_nonempty-Keeps) depth 60 fits 4000

pub decode_nonempty-Keeps : (t : Bytes) → Keeps (Heap.decode_nonempty t)
unfolding Heap.decode_nonempty
decode_nonempty-Keeps t = search (call_rules, touch-Keeps) depth 60 fits 4000

pub base58_decode-Keeps : (t : Bytes) → Keeps (Heap.base58_decode t)
unfolding Heap.base58_decode
base58_decode-Keeps t = search (call_rules, decode_nonempty-Keeps) depth 60 fits 4000

pub base58_encode_check-Keeps :
    (c : Primitives) (p : Ptr) (n : ℕ) → Keeps (Heap.base58_encode_check c p n)
unfolding Heap.base58_encode_check
base58_encode_check-Keeps c p n = search (call_rules, base58_encode-Keeps) depth 60 fits 4000

pub check-Keeps : (c : Primitives) (p : Ptr) (n : ℕ) → Keeps (Heap.check c p n)
unfolding Heap.check
check-Keeps c p n = search call_rules depth 60 fits 4000

pub base58_decode_check-Keeps : (c : Primitives) (t : Bytes) → Keeps (Heap.base58_decode_check c t)
unfolding Heap.base58_decode_check
base58_decode_check-Keeps c t = Keeps-bind _ _ (base58_decode-Keeps t) λ x.
    elim (Option-cases (x.1)) [
      | inl e ↦ rw e (search call_rules)
      | inr (n, e) ↦ rw e (search (call_rules, check-Keeps) depth 60)
    ]

-- ===== src/Base58/Moves.antt =====
-- The functions of base58.c on the C heap leave the open critical regions alone, and make no
-- JNI call.
use chain_wallet.Common.{ℕ, Bool, Bytes}
use chain_wallet.Jni.Machine.{Ptr}
use chain_wallet.Jni.Moves.{Moves, still, Moves-bind, Moves-option}
use chain_wallet.Jni.MovesCalls.{moves_rules}
use chain_wallet.Primitives.{Primitives}
use chain_wallet.Base58.Heap

module _ {calm : Bool} {i : ℕ} where
  touch-Moves : (p : Ptr) (n : ℕ) → Moves calm i (still i) (Heap.touch p n)
  unfolding Heap.touch
  touch-Moves p n = search moves_rules

  encode_nonempty-Moves : (p : Ptr) (n : ℕ) → Moves calm i (still i) (Heap.encode_nonempty p n)
  unfolding Heap.encode_nonempty
  encode_nonempty-Moves p n = search (touch-Moves, moves_rules) depth 60 fits 4000

  pub base58_encode-Moves : (p : Ptr) (n : ℕ) → Moves calm i (still i) (Heap.base58_encode p n)
  unfolding Heap.base58_encode
  base58_encode-Moves p n = search (encode_nonempty-Moves, moves_rules)

  decode_nonempty-Moves : (t : Bytes) → Moves calm i (still i) (Heap.decode_nonempty t)
  unfolding Heap.decode_nonempty
  decode_nonempty-Moves t = search (touch-Moves, moves_rules) depth 60 fits 4000

  pub base58_decode-Moves : (t : Bytes) → Moves calm i (still i) (Heap.base58_decode t)
  unfolding Heap.base58_decode
  base58_decode-Moves t = search (decode_nonempty-Moves, moves_rules)

  module _ (c : Primitives) where
    pub base58_encode_check-Moves :
        (p : Ptr) (n : ℕ) → Moves calm i (still i) (Heap.base58_encode_check c p n)
    unfolding Heap.base58_encode_check
    base58_encode_check-Moves p n = search (base58_encode-Moves, moves_rules) depth 60 fits 4000

    check-Moves : (p : Ptr) (n : ℕ) → Moves calm i (still i) (Heap.check c p n)
    unfolding Heap.check
    check-Moves p n = search moves_rules depth 60 fits 4000

    pub base58_decode_check-Moves :
        (t : Bytes) → Moves calm i (still i) (Heap.base58_decode_check c t)
    unfolding Heap.base58_decode_check
    base58_decode_check-Moves t =
        Moves-bind _ _ (base58_decode-Moves t)
          λ x. Moves-option (x.1) _ _ (search moves_rules) λ n. search (check-Moves, moves_rules)

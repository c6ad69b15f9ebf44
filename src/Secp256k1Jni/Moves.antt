-- ===== src/Secp256k1Jni/Moves.antt =====
-- The functions of secp256k1-wrapper.c leave as many critical regions open as they find,
-- and make no JNI call inside one.
use chain_wallet.Common.{ℕ, Bool}
use chain_wallet.Jni.Machine.{Ptr}
use chain_wallet.Jni.Moves.{Allowed, Moves, still, Moves-bind, Moves-option}
use chain_wallet.Jni.MovesCalls.{copy_array_to_c-Moves, calloc-Moves, read-Moves}
use chain_wallet.Secp256k1.{Ecdsa}
use chain_wallet.CryptoJni.MovesDigests.{bytes_moves}
use chain_wallet.Secp256k1Jni

pub create_public_key-Moves :
    {calm : Bool} {i : ℕ} (ok : Allowed calm i) (e : Ecdsa) (r : ℕ) (b : Bool)
    → Moves calm i (still i) (Secp256k1Jni.create_public_key e r b)
unfolding Secp256k1Jni.create_public_key
create_public_key-Moves ok e r b = search bytes_moves depth 60 fits 4000

module _ {calm : Bool} {i : ℕ} (ok : Allowed calm i) (e : Ecdsa) (r q : ℕ) where
  sign_short-Moves : (p : Ptr) (n : ℕ) → Moves calm i (still i) (Secp256k1Jni.sign_short e r q p n)
  unfolding Secp256k1Jni.sign_short
  sign_short-Moves p n = Moves-bind _ _ (copy_array_to_c-Moves _ ok) λ x.
      Moves-bind _ _ (calloc-Moves _) λ g. Moves-bind _ _ (read-Moves _ _) λ k.
        Moves-bind _ _ (read-Moves _ _) λ m.
          Moves-option (Secp256k1Jni.sign_any e k m) _ _ (search bytes_moves)
            λ s. search bytes_moves depth 60 fits 4000

  pub sign-Moves : Moves calm i (still i) (Secp256k1Jni.sign e r q)
  unfolding Secp256k1Jni.sign
  sign-Moves = search (sign_short-Moves, bytes_moves) depth 60 fits 4000

  eth_sign_short-Moves :
      (b : Bool) (p : Ptr) (n : ℕ)
      → Moves calm i (still i) (Secp256k1Jni.eth_sign_short e r q b p n)
  unfolding Secp256k1Jni.eth_sign_short
  eth_sign_short-Moves b p n = Moves-bind _ _ (copy_array_to_c-Moves _ ok) λ x.
      Moves-bind _ _ (calloc-Moves _) λ g. Moves-bind _ _ (read-Moves _ _) λ k.
        Moves-bind _ _ (read-Moves _ _) λ m.
          Moves-option (Secp256k1Jni.eth_sign_any e k m) _ _ (search bytes_moves)
            λ s. search bytes_moves depth 60 fits 4000

  pub eth_sign-Moves : (b : Bool) → Moves calm i (still i) (Secp256k1Jni.eth_sign e r q b)
  unfolding Secp256k1Jni.eth_sign
  eth_sign-Moves b = search (eth_sign_short-Moves, bytes_moves) depth 60 fits 4000

  read_public_key-Moves : (p : Ptr) → Moves calm i (still i) (Secp256k1Jni.read_public_key p)
  unfolding Secp256k1Jni.read_public_key
  read_public_key-Moves p = search bytes_moves

  verify_short-Moves :
      (u : ℕ) (p : Ptr) (n : ℕ) → Moves calm i (still i) (Secp256k1Jni.verify_short e r q u p n)
  unfolding Secp256k1Jni.verify_short
  verify_short-Moves u p n = search (read_public_key-Moves, bytes_moves) depth 60 fits 4000

  pub verify-Moves : (u : ℕ) → Moves calm i (still i) (Secp256k1Jni.verify e r q u)
  unfolding Secp256k1Jni.verify
  verify-Moves u = search (verify_short-Moves, bytes_moves) depth 60 fits 4000

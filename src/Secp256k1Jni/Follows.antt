-- ===== src/Secp256k1Jni/Follows.antt =====
-- The functions of secp256k1-wrapper.c under refused memory. `verify` of a message that is too long
-- does not look at its elements; here it is what follows for a shorter one.
use chain_wallet.Common.{ℕ, Bool, none, Bytes}
use chain_wallet.Jni.Machine.{M, Ptr, ◌>>=◌}
use chain_wallet.Jni.Method.{copy_array_to_c}
use chain_wallet.Jni.Follows.{
  Follows, Ends, Never, IsMissing, Follows-array, Follows-ptr, Follows-bind, Follows-option,
  Ends-bind, Ends-first, Ends-option,
}
use chain_wallet.Jni.FollowsCalls.{calloc-Follows, read-Follows}
use chain_wallet.Jni.FollowsMethod.{copy_array_to_c-Follows}
use chain_wallet.Secp256k1.{Ecdsa}
use chain_wallet.CryptoJni.FollowsDigests.{bytes_follows}
use chain_wallet.Secp256k1Jni

module _ (e : Ecdsa) where
  pub create_public_key-Follows :
      (r : ℕ) (b : Bool) → Follows IsMissing (Secp256k1Jni.create_public_key e r b)
  unfolding Secp256k1Jni.create_public_key
  create_public_key-Follows r b = search bytes_follows depth 60 fits 4000

  -- Without the message's elements, and with them.
  sign_short-Ends : (r q n : ℕ) → Ends IsMissing (Secp256k1Jni.sign_short e r q none n)
  unfolding Secp256k1Jni.sign_short
  sign_short-Ends r q n = search bytes_follows depth 60 fits 4000

  sign_short-Follows :
      (r q : ℕ) (p : Ptr) (n : ℕ) → Follows IsMissing (Secp256k1Jni.sign_short e r q p n)
  unfolding Secp256k1Jni.sign_short
  sign_short-Follows r q p n =
      Follows-array _ _ (copy_array_to_c-Follows r) (λ k. search bytes_follows depth 60 fits 4000)
        λ a k.
          Follows-ptr _ _ (calloc-Follows 64)
            (Ends-bind _ _ λ x. Ends-bind _ _ λ m.
              Ends-option (Secp256k1Jni.sign_any e x m) _ _
                (search bytes_follows depth 60 fits 4000)
                (λ g. search bytes_follows depth 60 fits 4000))
            λ o. Follows-bind _ _ (read-Follows _ _) λ x. Follows-bind _ _ (read-Follows _ _) λ m.
              Follows-option (Secp256k1Jni.sign_any e x m) _ _
                (search bytes_follows depth 60 fits 4000)
                λ g. search bytes_follows depth 60 fits 4000

  pub sign-Follows : (r q : ℕ) → Follows IsMissing (Secp256k1Jni.sign e r q)
  unfolding Secp256k1Jni.sign
  sign-Follows r q = search (sign_short-Ends, sign_short-Follows, bytes_follows) depth 60 fits 4000

  eth_sign_short-Ends :
      (r q : ℕ) (b : Bool) (n : ℕ) → Ends IsMissing (Secp256k1Jni.eth_sign_short e r q b none n)
  unfolding Secp256k1Jni.eth_sign_short
  eth_sign_short-Ends r q b n = search bytes_follows depth 60 fits 4000

  eth_sign_short-Follows :
      (r q : ℕ) (b : Bool) (p : Ptr) (n : ℕ)
      → Follows IsMissing (Secp256k1Jni.eth_sign_short e r q b p n)
  unfolding Secp256k1Jni.eth_sign_short
  eth_sign_short-Follows r q b p n =
      Follows-array _ _ (copy_array_to_c-Follows r) (λ k. search bytes_follows depth 60 fits 4000)
        λ a k.
          Follows-ptr _ _ (calloc-Follows 64)
            (Ends-bind _ _ λ x. Ends-bind _ _ λ m.
              Ends-option (Secp256k1Jni.eth_sign_any e x m) _ _
                (search bytes_follows depth 60 fits 4000)
                (λ g. search bytes_follows depth 60 fits 4000))
            λ o. Follows-bind _ _ (read-Follows _ _) λ x. Follows-bind _ _ (read-Follows _ _) λ m.
              Follows-option (Secp256k1Jni.eth_sign_any e x m) _ _
                (search bytes_follows depth 60 fits 4000)
                λ g. search bytes_follows depth 60 fits 4000

  pub eth_sign-Follows : (r q : ℕ) (b : Bool) → Follows IsMissing (Secp256k1Jni.eth_sign e r q b)
  unfolding Secp256k1Jni.eth_sign
  eth_sign-Follows r q b =
      search (eth_sign_short-Ends, eth_sign_short-Follows, bytes_follows) depth 60 fits 4000

  read_public_key-Ends :
      {A : Type 0} {P : A → Type 0} (f : Bytes → M A)
      → Ends P (Secp256k1Jni.read_public_key none >>= f)
  unfolding Secp256k1Jni.read_public_key
  read_public_key-Ends f = Ends-first _ f (search bytes_follows)

  read_public_key-Follows :
      {P : Bytes → Type 0} (p : Ptr) → Follows P (Secp256k1Jni.read_public_key p)
  unfolding Secp256k1Jni.read_public_key
  read_public_key-Follows p = search bytes_follows

  verify_short-Ends : (r q u n : ℕ) → Ends Never (Secp256k1Jni.verify_short e r q u none n)
  unfolding Secp256k1Jni.verify_short
  verify_short-Ends r q u n =
      search (read_public_key-Ends, read_public_key-Follows, bytes_follows) depth 60 fits 4000

  verify_short-Follows :
      (r q u : ℕ) (p : Ptr) (n : ℕ) → Follows Never (Secp256k1Jni.verify_short e r q u p n)
  unfolding Secp256k1Jni.verify_short
  verify_short-Follows r q u p n =
      search (read_public_key-Ends, read_public_key-Follows, bytes_follows) depth 60 fits 4000

  abbrev pub verify_unguarded : ℕ → ℕ → ℕ → M Bool
  verify_unguarded r q u = copy_array_to_c u >>= λ x. Secp256k1Jni.verify_short e r q u (x.0) (x.1)

  pub verify_unguarded-Follows : (r q u : ℕ) → Follows Never (verify_unguarded r q u)
  verify_unguarded-Follows r q u =
      search (verify_short-Ends, verify_short-Follows, bytes_follows) depth 60 fits 4000

-- ===== src/CryptoJni/FollowsBlake.antt =====
-- The BLAKE wrappers of crypto-wrapper.c under refused memory.
use chain_wallet.Common.{ℕ}
use chain_wallet.Jni.Machine.{Ptr}
use chain_wallet.Jni.Follows.{
  Follows, IsMissing, Follows-array, Follows-ptr, Follows-bind, Follows-option, Ends-bind,
}
use chain_wallet.Jni.FollowsCalls.{calloc-Follows, read-Follows}
use chain_wallet.Jni.FollowsMethod.{critical_array_to_c-Follows}
use chain_wallet.CryptoJni.FollowsDigests.{bytes_follows}
use chain_wallet.Primitives.{Primitives}
use chain_wallet.CryptoJni.Blake

pub checked_bytes-Follows : (n : ℕ) (p : Ptr) → Follows IsMissing (Blake.checked_bytes n p)
unfolding Blake.checked_bytes
checked_bytes-Follows n p = search bytes_follows depth 60 fits 4000

module _ (c : Primitives) where
  pub blake2b-Follows : (r n : ℕ) → Follows IsMissing (Blake.blake2b c r n)
  unfolding Blake.blake2b
  blake2b-Follows r n =
      Follows-array _ _ (critical_array_to_c-Follows r)
        (λ k. search bytes_follows depth 60 fits 4000)
        λ a k.
          Follows-ptr _ _ (calloc-Follows n)
            (Ends-bind _ _ λ m. search bytes_follows depth 60 fits 4000)
            λ o. Follows-bind _ _ (read-Follows _ _) λ m.
              Follows-option (c.blake2b m n) _ _ (search bytes_follows depth 60 fits 4000)
                λ h. search (checked_bytes-Follows, bytes_follows) depth 60 fits 4000

  pub blake2b_with_key-Follows : (r q n : ℕ) → Follows IsMissing (Blake.blake2b_with_key c r q n)
  unfolding Blake.blake2b_with_key
  blake2b_with_key-Follows r q n =
      Follows-array _ _ (critical_array_to_c-Follows r)
        (λ k. search bytes_follows depth 60 fits 4000)
        λ a k.
          Follows-array _ _ (critical_array_to_c-Follows q)
            (λ k. search bytes_follows depth 60 fits 4000)
            λ b k.
              Follows-ptr _ _ (calloc-Follows n)
                (Ends-bind _ _ λ m. Ends-bind _ _ λ t. search bytes_follows depth 60 fits 4000)
                λ o. Follows-bind _ _ (read-Follows _ _) λ m.
                  Follows-bind _ _ (read-Follows _ _) λ t.
                    Follows-option (c.blake2b_key m t n) _ _
                      (search bytes_follows depth 60 fits 4000)
                      λ h. search (checked_bytes-Follows, bytes_follows) depth 60 fits 4000

  pub blake2s-Follows : (r n : ℕ) → Follows IsMissing (Blake.blake2s c r n)
  unfolding Blake.blake2s
  blake2s-Follows r n =
      Follows-array _ _ (critical_array_to_c-Follows r)
        (λ k. search bytes_follows depth 60 fits 4000)
        λ a k.
          Follows-ptr _ _ (calloc-Follows n)
            (Ends-bind _ _ λ m. search bytes_follows depth 60 fits 4000)
            λ o. Follows-bind _ _ (read-Follows _ _) λ m.
              Follows-option (c.blake2s m n) _ _ (search bytes_follows depth 60 fits 4000)
                λ h. search (checked_bytes-Follows, bytes_follows) depth 60 fits 4000

  pub blake2s_with_key-Follows : (r q n : ℕ) → Follows IsMissing (Blake.blake2s_with_key c r q n)
  unfolding Blake.blake2s_with_key
  blake2s_with_key-Follows r q n =
      Follows-array _ _ (critical_array_to_c-Follows r)
        (λ k. search bytes_follows depth 60 fits 4000)
        λ a k.
          Follows-array _ _ (critical_array_to_c-Follows q)
            (λ k. search bytes_follows depth 60 fits 4000)
            λ b k.
              Follows-ptr _ _ (calloc-Follows n)
                (Ends-bind _ _ λ m. Ends-bind _ _ λ t. search bytes_follows depth 60 fits 4000)
                λ o. Follows-bind _ _ (read-Follows _ _) λ m.
                  Follows-bind _ _ (read-Follows _ _) λ t.
                    Follows-option (c.blake2s_key m t n) _ _
                      (search bytes_follows depth 60 fits 4000)
                      λ h. search (checked_bytes-Follows, bytes_follows) depth 60 fits 4000

  pub blake_256-Follows : (r : ℕ) → Follows IsMissing (Blake.blake_256 c r)
  unfolding Blake.blake_256
  blake_256-Follows r = search (checked_bytes-Follows, bytes_follows) depth 60 fits 4000

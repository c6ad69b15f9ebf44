-- ===== src/CryptoJni/KeyedLaws.antt =====
-- What the HMAC and PBKDF2 wrappers return, and what they leave behind.
use chain_wallet.Common.{
  ℕ, ◌+◌, ◌≡◌, refl, sym, ◌∙◌, some, Bytes, length, replicate, length-replicate, arith, eq_self,
}
use chain_wallet.Jni.Machine.{Jvm, heap, elements, critical, lookup}
use chain_wallet.Jni.Steps.{
  ready, block, used, counted, with_array, bind_step, update-lookup, calloc_step, copy_step,
  critical_step, critical_again_step, read_step, write_step, free_step, copy_release_step,
  critical_release_step, new_array_step, set_region_step,
}
use chain_wallet.CryptoJni.DigestLaws.{return_bytes_step}
use chain_wallet.CryptoJni.Keyed

module _ (n : ℕ) (f : Bytes → Bytes → Bytes) (sized : (k m : Bytes) → length (f k m) ≡ n) (r q : ℕ)
    (key message : Bytes) (s : Jvm) (given : lookup r s.arrays ≡ some key)
    (given' : lookup q s.arrays ≡ some message) where
  -- `hmac_sha256` and `hmac_sha512` are this function for 32 and 64 bytes: a new array holds the code
  -- of the message under the key, if no request for memory is refused. No block is left and both
  -- arrays are as before, but the second `GetArrayLength` was called inside a critical region.
  pub hmac_lem :
      Keyed.hmac n f r q (ready 0 s)
      ≡ some (some s.next_ref, ready 0 (with_array (f key message) (counted (used 3 s))))
  unfolding Keyed.hmac
  hmac_lem =
      let a = s.next_address in
      bind_step _ _ (calloc_step 0 n s) (
        bind_step _ _ (critical_step r key _ given) (
          bind_step _ _ (critical_again_step q message _ given') (
            bind_step _ _
              (read_step 2 (a + 1) _ (block (a + 1) (critical r) key) _ (ground arith) refl)
              (bind_step _ _
                (read_step 2 (a + 1 + 1) _ (block (a + 1 + 1) (critical q) message) _ (ground arith)
                  refl)
                (bind_step _ _
                  (write_step 2 a (block a heap (replicate n 0)) (f key message) _ (ground arith)
                    (sized key message ∙ sym (length-replicate n 0)))
                  (bind_step _ _ (critical_release_step 1 r (a + 1) (a + 1) key _ (ground arith)) (
                    bind_step _ _
                      (critical_release_step 0 q (a + 1 + 1) (a + 1 + 1) message _ (ground arith))
                      (return_bytes_step n a a (f key message) _ (sized key message) (ground arith)
                        ∙ ground (
                          arith,
                          update-lookup r key s.arrays given,
                          update-lookup q message s.arrays given',
                        )))))))))

module _ (f : Bytes → Bytes → ℕ → ℕ → Bytes) (i n : ℕ)
    (sized : (p t : Bytes) → length (f p t i n) ≡ n) (r q : ℕ) (pass salt : Bytes) (s : Jvm)
    (given : lookup r s.arrays ≡ some pass) (given' : lookup q s.arrays ≡ some salt) where
  -- Both PBKDF2 wrappers are this function: a new array of the length that is asked for holds the
  -- derived key, if no request for memory is refused. No block is left, both arrays are as before,
  -- and no JNI call is made inside a critical region.
  pub pbkdf2_lem :
      Keyed.pbkdf2 f r q i n (ready 0 s)
      ≡ some (some s.next_ref, ready 0 (with_array (f pass salt i n) (used 3 s)))
  unfolding Keyed.pbkdf2 Keyed.derive
  pbkdf2_lem =
      let a = s.next_address in
      let key = f pass salt i n in
      bind_step _ _ (copy_step r pass s given) (
        bind_step _ _ (copy_step q salt _ given') (
          bind_step _ _ (calloc_step 0 n _) (
            bind_step _ _ (read_step 0 a _ (block a (elements r) pass) _ (ground arith) refl) (
              bind_step _ _
                (read_step 0 (a + 1) _ (block (a + 1) (elements q) salt) _ (ground arith) refl)
                (bind_step _ _
                  (write_step 0 (a + 1 + 1) (block (a + 1 + 1) heap (replicate n 0)) key _
                    (ground arith) (sized pass salt ∙ sym (length-replicate n 0)))
                  (bind_step _ _ (copy_release_step r a a pass _ (ground arith)) (
                    bind_step _ _ (copy_release_step q (a + 1) (a + 1) salt _ (ground arith)) (
                      bind_step _ _ (new_array_step n _) (
                        bind_step _ _
                          (set_region_step s.next_ref n (a + 1 + 1) (block (a + 1 + 1) heap key)
                            (replicate n 0) _ (ground arith) (rw eq_self) (sized pass salt)
                            (length-replicate n 0))
                          (bind_step _ _ (free_step 0 (a + 1 + 1) (a + 1 + 1) key _ (ground arith))
                            (ground (
                              arith,
                              update-lookup r pass s.arrays given,
                              update-lookup q salt s.arrays given',
                            ))))))))))))

-- ===== src/CryptoJni/BlakeKeyLaws.antt =====
-- What the keyed BLAKE wrappers return on each branch, and what they leave behind.
use chain_wallet.Common.{
  ℕ, ◌+◌, ◌≡◌, refl, sym, ◌∙◌, none, some, Bytes, replicate, length-replicate, arith,
}
use chain_wallet.Jni.Machine.{Jvm, heap, critical, lookup}
use chain_wallet.Jni.Steps.{
  ready, block, used, counted, with_array, bind_step, update-lookup, calloc_step, critical_step,
  critical_again_step, read_step, write_step, free_step, critical_release_step,
}
use chain_wallet.Primitives.{Primitives}
use chain_wallet.CryptoJni.Blake
use chain_wallet.CryptoJni.BlakeLaws.{checked_bytes_step}

module _ (c : Primitives) (r q n : ℕ) (input key : Bytes) (s : Jvm)
    (given : lookup r s.arrays ≡ some input) (given' : lookup q s.arrays ≡ some key) where
  -- `blake2b_with_key` returns a new array with the keyed digest, where the library accepts the
  -- length and no request for memory is refused. No block is left and both arrays are as before, but
  -- the second `GetArrayLength` was called inside a critical region.
  pub blake2b_with_key_lem :
      {hash : Bytes}
      → c.blake2b_key input key n ≡ some hash
      → Blake.blake2b_with_key c r q n (ready 0 s)
        ≡ some (some s.next_ref, ready 0 (with_array hash (counted (used 3 s))))
  unfolding Blake.blake2b_with_key
  blake2b_with_key_lem {hash} accepted =
      let a = s.next_address in
      let sized = c.length-blake2b_key input key n accepted in
      bind_step _ _ (critical_step r input s given) (
        bind_step _ _ (critical_again_step q key _ given') (
          bind_step _ _ (calloc_step 2 n _) (
            bind_step _ _ (read_step 2 a _ (block a (critical r) input) _ (ground arith) refl) (
              bind_step _ _
                (read_step 2 (a + 1) _ (block (a + 1) (critical q) key) _ (ground arith) refl)
                (rw accepted (
                  bind_step _ _
                    (write_step 2 (a + 1 + 1) (block (a + 1 + 1) heap (replicate n 0)) hash _
                      (ground arith) (sized ∙ sym (length-replicate n 0)))
                    (bind_step _ _ (critical_release_step 1 r a a input _ (ground arith)) (
                      bind_step _ _ (critical_release_step 0 q (a + 1) (a + 1) key _ (ground arith))
                        (checked_bytes_step n (a + 1 + 1) (a + 1 + 1) hash _ sized (ground arith)
                          ∙ ground (
                            arith,
                            update-lookup r input s.arrays given,
                            update-lookup q key s.arrays given',
                          ))))))))))

  pub blake2b_with_key_refused :
      c.blake2b_key input key n ≡ none
      → Blake.blake2b_with_key c r q n (ready 0 s) ≡ some (none, ready 0 (counted (used 3 s)))
  unfolding Blake.blake2b_with_key
  blake2b_with_key_refused refused =
      let a = s.next_address in
      bind_step _ _ (critical_step r input s given) (
        bind_step _ _ (critical_again_step q key _ given') (
          bind_step _ _ (calloc_step 2 n _) (
            bind_step _ _ (read_step 2 a _ (block a (critical r) input) _ (ground arith) refl) (
              bind_step _ _
                (read_step 2 (a + 1) _ (block (a + 1) (critical q) key) _ (ground arith) refl)
                (rw refused (
                  bind_step _ _ (critical_release_step 1 r a a input _ (ground arith)) (
                    bind_step _ _ (critical_release_step 0 q (a + 1) (a + 1) key _ (ground arith)) (
                      bind_step _ _
                        (free_step 0 (a + 1 + 1) (a + 1 + 1) (replicate n 0) _ (ground arith))
                        (ground (
                          arith,
                          update-lookup r input s.arrays given,
                          update-lookup q key s.arrays given',
                        ))))))))))

  pub blake2s_with_key_lem :
      {hash : Bytes}
      → c.blake2s_key input key n ≡ some hash
      → Blake.blake2s_with_key c r q n (ready 0 s)
        ≡ some (some s.next_ref, ready 0 (with_array hash (counted (used 3 s))))
  unfolding Blake.blake2s_with_key
  blake2s_with_key_lem {hash} accepted =
      let a = s.next_address in
      let sized = c.length-blake2s_key input key n accepted in
      bind_step _ _ (critical_step r input s given) (
        bind_step _ _ (critical_again_step q key _ given') (
          bind_step _ _ (calloc_step 2 n _) (
            bind_step _ _ (read_step 2 a _ (block a (critical r) input) _ (ground arith) refl) (
              bind_step _ _
                (read_step 2 (a + 1) _ (block (a + 1) (critical q) key) _ (ground arith) refl)
                (rw accepted (
                  bind_step _ _
                    (write_step 2 (a + 1 + 1) (block (a + 1 + 1) heap (replicate n 0)) hash _
                      (ground arith) (sized ∙ sym (length-replicate n 0)))
                    (bind_step _ _ (critical_release_step 1 r a a input _ (ground arith)) (
                      bind_step _ _ (critical_release_step 0 q (a + 1) (a + 1) key _ (ground arith))
                        (checked_bytes_step n (a + 1 + 1) (a + 1 + 1) hash _ sized (ground arith)
                          ∙ ground (
                            arith,
                            update-lookup r input s.arrays given,
                            update-lookup q key s.arrays given',
                          ))))))))))

  pub blake2s_with_key_refused :
      c.blake2s_key input key n ≡ none
      → Blake.blake2s_with_key c r q n (ready 0 s) ≡ some (none, ready 0 (counted (used 3 s)))
  unfolding Blake.blake2s_with_key
  blake2s_with_key_refused refused =
      let a = s.next_address in
      bind_step _ _ (critical_step r input s given) (
        bind_step _ _ (critical_again_step q key _ given') (
          bind_step _ _ (calloc_step 2 n _) (
            bind_step _ _ (read_step 2 a _ (block a (critical r) input) _ (ground arith) refl) (
              bind_step _ _
                (read_step 2 (a + 1) _ (block (a + 1) (critical q) key) _ (ground arith) refl)
                (rw refused (
                  bind_step _ _ (critical_release_step 1 r a a input _ (ground arith)) (
                    bind_step _ _ (critical_release_step 0 q (a + 1) (a + 1) key _ (ground arith)) (
                      bind_step _ _
                        (free_step 0 (a + 1 + 1) (a + 1 + 1) (replicate n 0) _ (ground arith))
                        (ground (
                          arith,
                          update-lookup r input s.arrays given,
                          update-lookup q key s.arrays given',
                        ))))))))))

-- ===== src/CryptoJni/BlakeLaws.antt =====
-- What the BLAKE wrappers return on each branch, and what they leave behind.
use chain_wallet.Common.{
  ℕ, ◌+◌, ◌≡◌, refl, sym, ◌∙◌, none, some, Bytes, length, replicate, length-replicate, arith,
  eq_self,
}
use chain_wallet.Jni.Machine.{Jvm, heap, critical, lookup, find_block}
use chain_wallet.Jni.Steps.{
  ready, block, used, without_block, with_array, bind_step, bind_fault, copy_release_fault,
  update-lookup, calloc_step, critical_step, read_step, write_step, free_step,
  critical_release_step, new_array_step, set_region_step,
}
use chain_wallet.Primitives.{Primitives}
use chain_wallet.CryptoJni.Blake

pub checked_bytes_step :
    (n a a' : ℕ) (v : Bytes) (s : Jvm)
    → length v ≡ n
    → find_block a s.blocks ≡ some (block a' heap v)
    → Blake.checked_bytes n (some a) (ready 0 s)
      ≡ some (some s.next_ref, ready 0 (without_block a (with_array v s)))
unfolding Blake.checked_bytes
checked_bytes_step n a a' v s e h =
    let fresh = with_array (replicate n 0) s in
    bind_step _ _ (new_array_step n s) (
      bind_step _ _
        (set_region_step s.next_ref n a (block a' heap v) (replicate n 0) fresh h (rw eq_self) e
          (length-replicate _ _))
        (bind_step _ _ (free_step 0 a a' v _ h) (rw eq_self)))

module _ (c : Primitives) (r n : ℕ) (input : Bytes) (s : Jvm)
    (given : lookup r s.arrays ≡ some input) where
  pub blake2b_lem :
      {hash : Bytes}
      → c.blake2b input n ≡ some hash
      → Blake.blake2b c r n (ready 0 s)
        ≡ some (some s.next_ref, ready 0 (with_array hash (used 2 s)))
  unfolding Blake.blake2b
  blake2b_lem {hash} accepted =
      let a = s.next_address in
      let sized = c.length-blake2b input n accepted in
      bind_step _ _ (critical_step r input s given) (
        bind_step _ _ (calloc_step 1 n _) (
          bind_step _ _ (read_step 1 a _ (block a (critical r) input) _ (ground arith) refl) (
            rw accepted (
              bind_step _ _
                (write_step 1 (a + 1) (block (a + 1) heap (replicate n 0)) hash _ (ground arith)
                  (sized ∙ sym (length-replicate n 0)))
                (bind_step _ _ (critical_release_step 0 r a a input _ (ground arith)) (
                  checked_bytes_step n (a + 1) (a + 1) hash _ sized (ground arith)
                  ∙ ground (arith, update-lookup r input s.arrays given)))))))

  -- Where the library refuses the length, `blake2b` returns NULL and leaves no block behind, if no
  -- request for memory is refused.
  pub blake2b_refused :
      c.blake2b input n ≡ none → Blake.blake2b c r n (ready 0 s) ≡ some (none, ready 0 (used 2 s))
  unfolding Blake.blake2b
  blake2b_refused refused =
      let a = s.next_address in
      bind_step _ _ (critical_step r input s given) (
        bind_step _ _ (calloc_step 1 n _) (
          bind_step _ _ (read_step 1 a _ (block a (critical r) input) _ (ground arith) refl) (
            rw refused (
              bind_step _ _ (critical_release_step 0 r a a input _ (ground arith)) (
                bind_step _ _ (free_step 0 (a + 1) (a + 1) (replicate n 0) _ (ground arith))
                  (ground (arith, update-lookup r input s.arrays given)))))))

  pub blake2s_lem :
      {hash : Bytes}
      → c.blake2s input n ≡ some hash
      → Blake.blake2s c r n (ready 0 s)
        ≡ some (some s.next_ref, ready 0 (with_array hash (used 2 s)))
  unfolding Blake.blake2s
  blake2s_lem {hash} accepted =
      let a = s.next_address in
      let sized = c.length-blake2s input n accepted in
      bind_step _ _ (critical_step r input s given) (
        bind_step _ _ (calloc_step 1 n _) (
          bind_step _ _ (read_step 1 a _ (block a (critical r) input) _ (ground arith) refl) (
            rw accepted (
              bind_step _ _
                (write_step 1 (a + 1) (block (a + 1) heap (replicate n 0)) hash _ (ground arith)
                  (sized ∙ sym (length-replicate n 0)))
                (bind_step _ _ (critical_release_step 0 r a a input _ (ground arith)) (
                  checked_bytes_step n (a + 1) (a + 1) hash _ sized (ground arith)
                  ∙ ground (arith, update-lookup r input s.arrays given)))))))

  -- Where the library refuses the length, `blake2s` gives critical elements back as if they were a
  -- copy, which is a fault.
  pub blake2s_refused : c.blake2s input n ≡ none → Blake.blake2s c r n (ready 0 s) ≡ none
  unfolding Blake.blake2s
  blake2s_refused refused =
      let a = s.next_address in
      bind_step _ _ (critical_step r input s given) (
        bind_step _ _ (calloc_step 1 n _) (
          bind_step _ _ (read_step 1 a _ (block a (critical r) input) _ (ground arith) refl)
            (rw refused (bind_fault _ _ (copy_release_fault 1 r r a a input _ (ground arith))))))

module _ (c : Primitives) (r : ℕ) (input : Bytes) (s : Jvm)
    (given : lookup r s.arrays ≡ some input) where
  pub blake_256_lem :
      Blake.blake_256 c r (ready 0 s)
      ≡ some (some s.next_ref, ready 0 (with_array (c.blake256 input) (used 2 s)))
  unfolding Blake.blake_256
  blake_256_lem =
      let a = s.next_address in
      bind_step _ _ (critical_step r input s given) (
        bind_step _ _ (calloc_step 1 32 _) (
          bind_step _ _ (read_step 1 a _ (block a (critical r) input) _ (ground arith) refl) (
            bind_step _ _
              (write_step 1 (a + 1) (block (a + 1) heap (replicate 32 0)) (c.blake256 input) _
                (ground arith) (c.length-blake256 input))
              (bind_step _ _ (critical_release_step 0 r a a input _ (ground arith)) (
                checked_bytes_step 32 (a + 1) (a + 1) (c.blake256 input) _ (c.length-blake256 input)
                  (ground arith)
                ∙ ground (arith, update-lookup r input s.arrays given))))))

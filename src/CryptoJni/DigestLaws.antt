-- ===== src/CryptoJni/DigestLaws.antt =====
-- What the digest wrappers return, and what they leave behind in the machine.
use chain_wallet.Common.{
  ℕ, ◌+◌, ◌≡◌, refl, sym, ◌∙◌, some, Bytes, length, replicate, length-replicate, arith, eq_self,
}
use chain_wallet.Jni.Machine.{Jvm, heap, elements, critical, lookup, find_block}
use chain_wallet.Jni.Steps.{
  ready, block, used, without_block, with_array, bind_step, update-lookup, calloc_step, copy_step,
  critical_step, read_step, write_step, free_step, copy_release_step, critical_release_step,
  new_array_step, set_region_step,
}
use chain_wallet.CryptoJni.Digests

pub return_bytes_step :
    (n a a' : ℕ) (v : Bytes) (s : Jvm)
    → length v ≡ n
    → find_block a s.blocks ≡ some (block a' heap v)
    → Digests.return_bytes n (some a) (ready 0 s)
      ≡ some (some s.next_ref, ready 0 (without_block a (with_array v s)))
unfolding Digests.return_bytes
return_bytes_step n a a' v s e h =
    let fresh = with_array (replicate n 0) s in
    bind_step _ _ (new_array_step n s) (
      bind_step _ _
        (set_region_step s.next_ref n a (block a' heap v) (replicate n 0) fresh h (rw eq_self) e
          (length-replicate _ _))
        (bind_step _ _ (free_step 0 a a' v _ h) (rw eq_self)))

-- One input of the machine, and a function with results of `n` bytes.
module _ (n : ℕ) (f : Bytes → Bytes) (sized : (m : Bytes) → length (f m) ≡ n) (r : ℕ)
    (input : Bytes) (s : Jvm) (given : lookup r s.arrays ≡ some input) where
  pub copy_digest_lem :
      Digests.copy_digest n f r (ready 0 s)
      ≡ some (some s.next_ref, ready 0 (with_array (f input) (used 2 s)))
  unfolding Digests.copy_digest
  copy_digest_lem =
      let a = s.next_address in
      bind_step _ _ (calloc_step 0 n s) (
        bind_step _ _ (copy_step r input _ given) (
          bind_step _ _
            (read_step 0 (a + 1) _ (block (a + 1) (elements r) input) _ (rw eq_self) refl)
            (bind_step _ _
              (write_step 0 a (block a heap (replicate n 0)) (f input) _ (ground arith)
                (sized input ∙ sym (length-replicate n 0)))
              (bind_step _ _ (copy_release_step r (a + 1) (a + 1) input _ (ground arith)) (
                return_bytes_step n a a (f input) _ (sized input) (ground arith)
                ∙ ground (arith, update-lookup r input s.arrays given))))))

  pub critical_digest_lem :
      Digests.critical_digest n f r (ready 0 s)
      ≡ some (some s.next_ref, ready 0 (with_array (f input) (used 2 s)))
  unfolding Digests.critical_digest
  critical_digest_lem =
      let a = s.next_address in
      bind_step _ _ (calloc_step 0 n s) (
        bind_step _ _ (critical_step r input _ given) (
          bind_step _ _
            (read_step 1 (a + 1) _ (block (a + 1) (critical r) input) _ (rw eq_self) refl)
            (bind_step _ _
              (write_step 1 a (block a heap (replicate n 0)) (f input) _ (ground arith)
                (sized input ∙ sym (length-replicate n 0)))
              (bind_step _ _ (critical_release_step 0 r (a + 1) (a + 1) input _ (ground arith)) (
                return_bytes_step n a a (f input) _ (sized input) (ground arith)
                ∙ ground (arith, update-lookup r input s.arrays given))))))

  pub copy_double_digest_lem :
      Digests.copy_double_digest n f r (ready 0 s)
      ≡ some (some s.next_ref, ready 0 (with_array (f (f input)) (used 2 s)))
  unfolding Digests.copy_double_digest
  copy_double_digest_lem =
      let a = s.next_address in
      bind_step _ _ (calloc_step 0 n s) (
        bind_step _ _ (copy_step r input _ given) (
          bind_step _ _
            (read_step 0 (a + 1) _ (block (a + 1) (elements r) input) _ (rw eq_self) refl)
            (bind_step _ _
              (write_step 0 a (block a heap (replicate n 0)) (f input) _ (ground arith)
                (sized input ∙ sym (length-replicate n 0)))
              (bind_step _ _
                (read_step 0 a n (block a heap (f input)) _ (ground arith) (sized input))
                (bind_step _ _
                  (write_step 0 a (block a heap (f input)) (f (f input)) _ (ground arith)
                    (sized (f input) ∙ sym (sized input)))
                  (bind_step _ _ (copy_release_step r (a + 1) (a + 1) input _ (ground arith)) (
                    return_bytes_step n a a (f (f input)) _ (sized (f input)) (ground arith)
                    ∙ ground (arith, update-lookup r input s.arrays given))))))))

  pub critical_double_digest_lem :
      Digests.critical_double_digest n f r (ready 0 s)
      ≡ some (some s.next_ref, ready 0 (with_array (f (f input)) (used 2 s)))
  unfolding Digests.critical_double_digest
  critical_double_digest_lem =
      let a = s.next_address in
      bind_step _ _ (calloc_step 0 n s) (
        bind_step _ _ (critical_step r input _ given) (
          bind_step _ _
            (read_step 1 (a + 1) _ (block (a + 1) (critical r) input) _ (rw eq_self) refl)
            (bind_step _ _
              (write_step 1 a (block a heap (replicate n 0)) (f input) _ (ground arith)
                (sized input ∙ sym (length-replicate n 0)))
              (bind_step _ _
                (read_step 1 a n (block a heap (f input)) _ (ground arith) (sized input))
                (bind_step _ _
                  (write_step 1 a (block a heap (f input)) (f (f input)) _ (ground arith)
                    (sized (f input) ∙ sym (sized input)))
                  (bind_step _ _ (critical_release_step 0 r (a + 1) (a + 1) input _ (ground arith))
                    (return_bytes_step n a a (f (f input)) _ (sized (f input)) (ground arith)
                      ∙ ground (arith, update-lookup r input s.arrays given))))))))

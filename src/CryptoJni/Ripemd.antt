-- ===== src/CryptoJni/Ripemd.antt =====
-- `CryptoJNI_ripemd160` never frees the block of its result.
use chain_wallet.Common.{ℕ, ◌+◌, ◌≡◌, refl, some, ◌∷◌, Bytes, replicate, arith, eq_self}
use chain_wallet.Jni.Machine.{Jvm, heap, elements, lookup}
use chain_wallet.Jni.Steps.{
  ready, block, used, with_array, bind_step, update-lookup, calloc_step, copy_step, read_step,
  write_step, copy_release_step, new_array_step, set_region_step,
}
use chain_wallet.Primitives.{Primitives}
use chain_wallet.CryptoJni.Digests

module _ (c : Primitives) (r : ℕ) (input : Bytes) (s : Jvm)
    (given : lookup r s.arrays ≡ some input) where
  -- `ripemd160` returns a new array with the digest, if no request for memory is refused; the input
  -- is as before, and the block that the digest was computed in is still there.
  pub ripemd160_leaks :
      Digests.ripemd160 c r (ready 0 s)
      ≡ some (
        some s.next_ref,
        ready 0 (record (with_array (c.ripemd160 input) (used 2 s)) {
          blocks = block (s.next_address + 1) heap (c.ripemd160 input) ∷ s.blocks;
        }),
      )
  unfolding Digests.ripemd160 Digests.leak_bytes
  ripemd160_leaks =
      let a = s.next_address in
      let hash = c.ripemd160 input in
      bind_step _ _ (copy_step r input s given) (
        bind_step _ _ (calloc_step 0 20 _) (
          bind_step _ _ (read_step 0 a _ (block a (elements r) input) _ (ground arith) refl) (
            bind_step _ _
              (write_step 0 (a + 1) (block (a + 1) heap (replicate 20 0)) hash _ (ground arith)
                (c.length-ripemd160 input))
              (bind_step _ _ (copy_release_step r a a input _ (ground arith)) (
                bind_step _ _ (new_array_step 20 _) (
                  bind_step _ _
                    (set_region_step s.next_ref 20 (a + 1) (block (a + 1) heap hash)
                      (replicate 20 0) _ (ground arith) (rw eq_self) (c.length-ripemd160 input)
                      refl)
                    (ground (arith, update-lookup r input s.arrays given))))))))

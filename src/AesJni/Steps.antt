-- ===== src/AesJni/Steps.antt =====
-- The steps that `encrypt` and `decrypt` of aes-wrapper.c share.
use chain_wallet.Common.{ℕ, ◌+◌, ◌≡◌, refl, sym, ◌∙◌, Option, none, some, [], Bytes, length, arith}
use chain_wallet.Jni.Machine.{Ptr, Jvm, M, elements, lookup, find_block}
use chain_wallet.Jni.Steps.{
  ready, block, used, with_block, with_bytes, with_array, set_array, bind_step, update-lookup,
  copy_step, read_step, write_step, copy_release_step, new_array_step,
}
use chain_wallet.Jni.Arrays.{lookup-apart, return_local_step}
use chain_wallet.AesJni
use chain_wallet.AesJni.{Aes, Chained}

pub run_chained_step :
    (f : Chained) (ctx d : Bytes) (a a' i : ℕ) (iv : Bytes) (s : Jvm) {out v : Bytes}
    → find_block a s.blocks ≡ some (block a' (elements i) iv)
    → length iv ≡ 16
    → f ctx d iv ≡ some (out, v)
    → length v ≡ 16
    → AesJni.run_chained f ctx d (some a) (ready 0 s) ≡ some (some out, ready 0 (with_bytes a v s))
unfolding AesJni.run_chained
run_chained_step f ctx d a a' i iv s {out} {v} found sized done sized' =
    let b = block a' (elements i) iv in
    bind_step _ _ (read_step 0 a 16 b s found sized)
      (rw done (bind_step _ _ (write_step 0 a b v s found (sized' ∙ sym sized)) (refl)))

pub run_chained_refused :
    (f : Chained) (ctx d : Bytes) (a a' i : ℕ) (iv : Bytes) (s : Jvm)
    → find_block a s.blocks ≡ some (block a' (elements i) iv)
    → length iv ≡ 16
    → f ctx d iv ≡ none
    → AesJni.run_chained f ctx d (some a) (ready 0 s) ≡ some (none, ready 0 s)
unfolding AesJni.run_chained
run_chained_refused f ctx d a a' i iv s found sized refused =
    let b = block a' (elements i) iv in
    bind_step _ _ (read_step 0 a 16 b s found sized) (rw refused refl)

module _ (k d i : ℕ) (key input iv : Bytes) (s : Jvm) (has_key : lookup k s.arrays ≡ some key)
    (has_input : lookup d s.arrays ≡ some input) (has_iv : lookup i s.arrays ≡ some iv) where
  -- The machine once the three arrays are taken over.
  abbrev taken : Jvm
  taken = with_block (elements i) iv (with_block (elements d) input (with_block (elements k) key s))

  pub run_step :
      (expand : Bytes → Option Bytes) (switch : Bytes → Bytes → Ptr → M (Option Bytes))
      {ctx out : Bytes} (v : Bytes)
      → expand key ≡ some ctx
      → switch ctx input (some (s.next_address + 1 + 1)) (ready 0 taken)
        ≡ some (some out, ready 0 (with_bytes (s.next_address + 1 + 1) v taken))
      → length out ≡ length input
      → lookup s.next_ref s.arrays ≡ none
      → AesJni.run expand switch k d i (ready 0 s)
        ≡ some (some s.next_ref, ready 0 (with_array out (set_array i v (used 3 s))))
  unfolding AesJni.run AesJni.release_all
  run_step expand switch {ctx} {out} v expanded ran sized free =
      let a = s.next_address in
      let k_apart = lookup-apart k s.next_ref s.arrays has_key free in
      let d_apart = lookup-apart d s.next_ref s.arrays has_input free in
      let i_apart = lookup-apart i s.next_ref s.arrays has_iv free in
      bind_step _ _ (copy_step k key s has_key) (
        bind_step _ _ (copy_step d input _ has_input) (
          bind_step _ _ (copy_step i iv _ has_iv) (
            bind_step _ _ (read_step 0 a _ (block a (elements k) key) _ (ground arith) refl) (
              rw expanded (
                bind_step _ _
                  (read_step 0 (a + 1) _ (block (a + 1) (elements d) input) _ (ground arith) refl)
                  (bind_step _ _ (ran) (
                    bind_step _ _ (return_local_step (length input) out _ sized) (
                      bind_step _ _
                        (bind_step _ _ (copy_release_step d (a + 1) (a + 1) input _ (ground arith))
                          (bind_step _ _ (copy_release_step k a a key _ (ground arith))
                            (copy_release_step i (a + 1 + 1) (a + 1 + 1) v _ (ground arith))))
                        (ground (
                          arith,
                          k_apart,
                          d_apart,
                          i_apart,
                          update-lookup k key s.arrays has_key,
                          update-lookup d input s.arrays has_input,
                        ))))))))))

  give_up_step :
      AesJni.give_up k d i
        (some s.next_address)
        (some (s.next_address + 1))
        (some (s.next_address + 1 + 1))
        (ready 0 taken)
      ≡ some (some s.next_ref, ready 0 (with_array [] (used 3 s)))
  unfolding AesJni.give_up AesJni.release_all
  give_up_step =
      let a = s.next_address in
      bind_step _ _
        (bind_step _ _ (copy_release_step d (a + 1) (a + 1) input _ (ground arith)) (
          bind_step _ _ (copy_release_step k a a key _ (ground arith))
            (copy_release_step i (a + 1 + 1) (a + 1 + 1) iv _ (ground arith))))
        (new_array_step 0 _
          ∙ ground (
            arith,
            update-lookup k key s.arrays has_key,
            update-lookup d input s.arrays has_input,
            update-lookup i iv s.arrays has_iv,
          ))

  -- A key that the code refuses: an empty array comes back, and nothing else has changed.
  pub run_refused_key :
      (expand : Bytes → Option Bytes) (switch : Bytes → Bytes → Ptr → M (Option Bytes))
      → expand key ≡ none
      → AesJni.run expand switch k d i (ready 0 s)
        ≡ some (some s.next_ref, ready 0 (with_array [] (used 3 s)))
  unfolding AesJni.run
  run_refused_key expand switch refused = bind_step _ _ (copy_step k key s has_key) (
      bind_step _ _ (copy_step d input _ has_input) (
        bind_step _ _ (copy_step i iv _ has_iv) (
          bind_step _ _
            (read_step 0 s.next_address _ (block s.next_address (elements k) key) _ (ground arith)
              refl)
            (rw refused give_up_step))))

  pub run_refused :
      (expand : Bytes → Option Bytes) (switch : Bytes → Bytes → Ptr → M (Option Bytes))
      {ctx : Bytes}
      → expand key ≡ some ctx
      → switch ctx input (some (s.next_address + 1 + 1)) (ready 0 taken)
        ≡ some (none, ready 0 taken)
      → AesJni.run expand switch k d i (ready 0 s)
        ≡ some (some s.next_ref, ready 0 (with_array [] (used 3 s)))
  unfolding AesJni.run
  run_refused expand switch {ctx} expanded ran =
      let a = s.next_address in
      bind_step _ _ (copy_step k key s has_key) (
        bind_step _ _ (copy_step d input _ has_input) (
          bind_step _ _ (copy_step i iv _ has_iv) (
            bind_step _ _ (read_step 0 a _ (block a (elements k) key) _ (ground arith) refl) (
              rw expanded (
                bind_step _ _
                  (read_step 0 (a + 1) _ (block (a + 1) (elements d) input) _ (ground arith) refl)
                  (bind_step _ _ (ran) (give_up_step)))))))

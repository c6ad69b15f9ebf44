-- ===== src/Ed25519Jni/Laws.antt =====
-- What the wrappers of ed25519-wrapper.c return, and what they leave behind.
use chain_wallet.Common.{ℕ, ◌+◌, ◌≡◌, refl, ◌∙◌, none, some, Bytes, length, arith, ◌==◌, ◌<◌}
use chain_wallet.Jni.Machine.{Jvm, elements, critical, lookup}
use chain_wallet.Jni.Steps.{
  ready, block, used, counted, with_array, bind_step, bind_fault, update-lookup, copy_step,
  critical_step, critical_again_step, read_step, copy_release_step, critical_release_step,
}
use chain_wallet.Jni.Faults.{read_past_end}
use chain_wallet.Jni.Arrays.{lookup-apart, return_local_step}
use chain_wallet.Ed25519Jni
use chain_wallet.Ed25519Jni.{Donna}

module _ (e : Donna) (r : ℕ) (key : Bytes) (s : Jvm) (given : lookup r s.arrays ≡ some key)
    (sized : length key ≡ 32) where
  -- For a key of 32 bytes a new array holds what is derived from it, if no request for memory is
  -- refused. The key's elements are given back, no JNI call is made inside a critical region, and
  -- nothing else has changed.
  pub ed25519_create_public_key_lem :
      Ed25519Jni.create_public_key e r (ready 0 s)
      ≡ some (some s.next_ref, ready 0 (with_array (e.publickey key) (used 1 s)))
  unfolding Ed25519Jni.create_public_key
  ed25519_create_public_key_lem =
      let a = s.next_address in
      bind_step _ _ (critical_step r key s given) (
        bind_step _ _ (read_step 1 a _ (block a (critical r) key) _ (ground arith) sized) (
          bind_step _ _ (critical_release_step 0 r a a key _ (ground arith)) (
            return_local_step 32 (e.publickey key) _ (e.length-publickey key)
            ∙ ground (arith, update-lookup r key s.arrays given))))

  -- For a key of 32 bytes a new array holds what is derived from it, if no request for memory is
  -- refused. The key's elements are given back, no JNI call is made inside a critical region, and
  -- nothing else has changed.
  pub curve25519_create_public_key_lem :
      Ed25519Jni.curve25519_create_public_key e r (ready 0 s)
      ≡ some (some s.next_ref, ready 0 (with_array (e.scalarmult_basepoint key) (used 1 s)))
  unfolding Ed25519Jni.curve25519_create_public_key
  curve25519_create_public_key_lem =
      let a = s.next_address in
      bind_step _ _ (critical_step r key s given) (
        bind_step _ _ (read_step 1 a _ (block a (critical r) key) _ (ground arith) sized) (
          bind_step _ _ (critical_release_step 0 r a a key _ (ground arith)) (
            return_local_step 32 (e.scalarmult_basepoint key) _ (e.length-scalarmult_basepoint key)
            ∙ ground (arith, update-lookup r key s.arrays given))))

module _ (e : Donna) (r q : ℕ) (key message : Bytes) (s : Jvm)
    (given : lookup r s.arrays ≡ some key) (given' : lookup q s.arrays ≡ some message)
    (sized : length key ≡ 32) where
  -- For a key of 32 bytes and a message of the stated size a new array holds the signature, if no
  -- request for memory is refused and the next reference is free. Both arrays are as before, and
  -- no block is left.
  pub ed25519_sign_lem :
      lookup s.next_ref s.arrays ≡ none
      → Ed25519Jni.sign e r q (length message) (ready 0 s)
        ≡ some (some s.next_ref, ready 0 (with_array (e.sign message key) (used 2 s)))
  unfolding Ed25519Jni.sign
  ed25519_sign_lem free =
      let a = s.next_address in
      let r_apart = lookup-apart r s.next_ref s.arrays given free in
      let q_apart = lookup-apart q s.next_ref s.arrays given' free in
      bind_step _ _ (copy_step r key s given) (
        bind_step _ _ (copy_step q message _ given') (
          bind_step _ _
            (read_step 0 (a + 1) _ (block (a + 1) (elements q) message) _ (ground arith) refl)
            (bind_step _ _ (read_step 0 a _ (block a (elements r) key) _ (ground arith) sized) (
              bind_step _ _
                (return_local_step 64 (e.sign message key) _ (e.length-sign message key))
                (bind_step _ _ (copy_release_step r a a key _ (ground arith)) (
                  bind_step _ _ (copy_release_step q (a + 1) (a + 1) message _ (ground arith)) (
                    ground (
                      arith,
                      r_apart,
                      q_apart,
                      update-lookup r key s.arrays given,
                      update-lookup q message s.arrays given',
                    ))))))))

  -- A size beyond the end of the message is a read past its elements, whatever the key is.
  pub sign_past_end : (n : ℕ) → length message < n → Ed25519Jni.sign e r q n (ready 0 s) ≡ none
  unfolding Ed25519Jni.sign
  sign_past_end n beyond =
      let a = s.next_address in
      bind_step _ _ (copy_step r key s given) (
        bind_step _ _ (copy_step q message _ given') (
          bind_fault _ _ (
            read_past_end 0 (a + 1) n (block (a + 1) (elements q) message) _ (ground arith)
              beyond)))

  -- For two points of 32 bytes a new array holds their product, if no request for memory is
  -- refused. Both arrays are given back; the length of the second was asked for inside a critical
  -- region, and counts as one call that JNI does not allow there.
  pub curve25519_create_shared_key_lem :
      length message ≡ 32
      → Ed25519Jni.curve25519_create_shared_key e r q (ready 0 s)
        ≡ some
            (some s.next_ref, ready 0 (with_array (e.scalarmult key message) (counted (used 2 s))))
  unfolding Ed25519Jni.curve25519_create_shared_key
  curve25519_create_shared_key_lem sized' =
      let a = s.next_address in
      bind_step _ _ (critical_step r key s given) (
        bind_step _ _ (critical_again_step q message _ given') (
          bind_step _ _ (read_step 2 a _ (block a (critical r) key) _ (ground arith) sized) (
            bind_step _ _
              (read_step 2 (a + 1) _ (block (a + 1) (critical q) message) _ (ground arith) sized')
              (bind_step _ _ (critical_release_step 1 r a a key _ (ground arith)) (
                bind_step _ _ (critical_release_step 0 q (a + 1) (a + 1) message _ (ground arith)) (
                  return_local_step 32 (e.scalarmult key message) _
                    (e.length-scalarmult key message)
                  ∙ ground (
                    arith,
                    update-lookup r key s.arrays given,
                    update-lookup q message s.arrays given',
                  )))))))

-- For a key of 32 bytes, a signature of 64 and a message of the stated size the answer is whether
-- the library accepts the signature, if no request for memory is refused. All three arrays are
-- given back unchanged, and no block is left.
pub ed25519_verify_lem :
    (e : Donna) (r g q : ℕ) (key signature message : Bytes) (s : Jvm)
    → lookup r s.arrays ≡ some key
    → lookup g s.arrays ≡ some signature
    → lookup q s.arrays ≡ some message
    → length key ≡ 32
    → length signature ≡ 64
    → Ed25519Jni.verify e r g q (length message) (ready 0 s)
      ≡ some (e.sign_open message key signature == 0, ready 0 (used 3 s))
unfolding Ed25519Jni.verify
ed25519_verify_lem e r g q key signature message s given given' given'' sized sized' =
    let a = s.next_address in
    bind_step _ _ (copy_step r key s given) (
      bind_step _ _ (copy_step g signature _ given') (
        bind_step _ _ (copy_step q message _ given'') (
          bind_step _ _
            (read_step 0 (a + 1 + 1) _ (block (a + 1 + 1) (elements q) message) _ (ground arith)
              refl)
            (bind_step _ _ (read_step 0 a _ (block a (elements r) key) _ (ground arith) sized) (
              bind_step _ _
                (read_step 0 (a + 1) _ (block (a + 1) (elements g) signature) _ (ground arith)
                  sized')
                (bind_step _ _ (copy_release_step r a a key _ (ground arith)) (
                  bind_step _ _ (copy_release_step g (a + 1) (a + 1) signature _ (ground arith)) (
                    bind_step _ _
                      (copy_release_step q (a + 1 + 1) (a + 1 + 1) message _ (ground arith))
                      (ground (
                        arith,
                        update-lookup r key s.arrays given,
                        update-lookup g signature s.arrays given',
                        update-lookup q message s.arrays given'',
                      ))))))))))

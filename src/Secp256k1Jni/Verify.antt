-- ===== src/Secp256k1Jni/Verify.antt =====
-- What `ethSign` and `verify` of secp256k1-wrapper.c return, and what they leave behind.
use chain_wallet.Common.{
  ℕ, ◌+◌, ◌*◌, ◌≡◌, refl, Bool, false, none, some, [], ◌∷◌, Bytes, length, replicate, arith,
  eq_self, lt→ltb, le→ltb, ◌==◌, if◌then◌else◌, ◌<◌, ◌≤◌, take,
}
use chain_wallet.Jni.Machine.{Jvm, heap, elements, lookup}
use chain_wallet.Jni.Steps.{
  ready, block, used, with_block, with_array, bind_step, bind_fault, update-lookup, calloc_step,
  copy_step, read_step, write_step, copy_release_step, new_array_step, set_region_step,
}
use chain_wallet.Jni.Arrays.{
  lookup-apart, set_local_step, class_step, objects_step, set_first_step, set_second_step,
}
use chain_wallet.Secp256k1
use chain_wallet.Secp256k1.{Ecdsa}
use chain_wallet.Secp256k1Jni
use chain_wallet.Secp256k1Jni.Digest.{length-eth_sign_any, padding_list-full}
use chain_wallet.Secp256k1Jni.PublicKey.{read_public_key_step, read_public_key_past_end}
use chain_wallet.Secp256k1Jni.Laws.{leaked}

module _ (e : Ecdsa) (r q : ℕ) (key message : Bytes) (s : Jvm)
    (given : lookup r s.arrays ≡ some key) (given' : lookup q s.arrays ≡ some message) where
  -- `ethSign` of a message of more than 32 bytes returns NULL, and nothing has changed.
  pub eth_sign_long :
      (compressed : Bool)
      → 32 < length message
      → Secp256k1Jni.eth_sign e r q compressed (ready 0 s) ≡ some (none, ready 0 (used 1 s))
  unfolding Secp256k1Jni.eth_sign
  eth_sign_long compressed long =
      let a = s.next_address in
      let over = lt→ltb 32 (length message) long in
      bind_step _ _ (copy_step q message s given') (
        rw over (
          bind_step _ _ (copy_release_step q a a message _ (ground arith))
            (ground (arith, update-lookup q message s.arrays given'))))

  -- For a key of 32 bytes and a message of at most 32, `ethSign` returns two new arrays: the
  -- signature, and the one byte 27 + v, or 31 + v for a compressed key, where v is the recovery
  -- number; this if no request for memory is refused and the next two references are free. Both
  -- given arrays are as before. The block that the signature was made in is still there.
  pub eth_sign_lem :
      {sig : Bytes} {v : ℕ} (compressed : Bool)
      → length key ≡ 32
      → length message ≤ 32
      → lookup s.next_ref s.arrays ≡ none
      → lookup (s.next_ref + 1) s.arrays ≡ none
      → Secp256k1Jni.eth_sign_any e key message ≡ some (sig, v)
      → Secp256k1Jni.eth_sign e r q compressed (ready 0 s)
        ≡ some (
          some (some s.next_ref, some (s.next_ref + 1)),
          ready 0 (
              with_array
                ((27 + v + (if compressed then 1 else 0) * 4) ∷ [])
                (with_array sig (leaked sig s))),
        )
  unfolding Secp256k1Jni.eth_sign Secp256k1Jni.eth_sign_short
  eth_sign_lem {sig} {v} compressed sized short free free' signed =
      let a = s.next_address in
      let measured = length-eth_sign_any e key message signed in
      let r_apart = lookup-apart r s.next_ref s.arrays given free in
      let q_apart = lookup-apart q s.next_ref s.arrays given' free in
      let r_apart' = lookup-apart r (s.next_ref + 1) s.arrays given free' in
      let q_apart' = lookup-apart q (s.next_ref + 1) s.arrays given' free' in
      let over = le→ltb 32 (length message) short in
      bind_step _ _ (copy_step q message s given') (
        rw over (
          bind_step _ _ (copy_step r key _ given) (
            bind_step _ _ (calloc_step 0 64 _) (
              bind_step _ _
                (read_step 0 (a + 1) _ (block (a + 1) (elements r) key) _ (ground arith) sized)
                (bind_step _ _
                  (read_step 0 a _ (block a (elements q) message) _ (ground arith) refl)
                  (rw signed (
                    bind_step _ _
                      (write_step 0 (a + 1 + 1) (block (a + 1 + 1) heap (replicate 64 0)) sig _
                        (ground arith) measured)
                      (bind_step _ _ (new_array_step 64 _) (
                        bind_step _ _
                          (set_region_step s.next_ref 64 (a + 1 + 1) (block (a + 1 + 1) heap sig)
                            (replicate 64 0) _ (ground arith) (rw eq_self refl) measured refl)
                          (bind_step _ _ (class_step s.next_ref _) (
                            bind_step _ _ (objects_step _) (
                              bind_step _ _ (set_first_step none none (some s.next_ref) _) (
                                bind_step _ _ (new_array_step 1 _) (
                                  bind_step _ _
                                    (set_local_step (s.next_ref + 1) _ (replicate 1 0) _
                                      (rw eq_self refl) refl)
                                    (bind_step _ _
                                      (set_second_step (some s.next_ref) none
                                        (some (s.next_ref + 1)) _)
                                      (bind_step _ _
                                        (copy_release_step r (a + 1) (a + 1) key _ (ground arith))
                                        (bind_step _ _
                                          (copy_release_step q a a message _ (ground arith))
                                          (ground (
                                            arith,
                                            r_apart,
                                            q_apart,
                                            r_apart',
                                            q_apart',
                                            update-lookup r key s.arrays given,
                                            update-lookup q message s.arrays given',
                                          )))))))))))))))))))

-- For a signature of 64 bytes, a message of at most 32 and a public key that is as long as its first
-- byte says, the answer is whether the curve's code verifies the signature of the padded message with
-- that part of the key, if no request for memory is refused. All three arrays are as before, and no
-- block is left.
pub verify_lem :
    (e : Ecdsa) (r g q : ℕ) (key sig message : Bytes) (s : Jvm)
    → lookup r s.arrays ≡ some key
    → lookup g s.arrays ≡ some sig
    → lookup q s.arrays ≡ some message
    → Secp256k1Jni.public_key_size key ≤ length key
    → length sig ≡ 64
    → length message ≤ 32
    → Secp256k1Jni.verify e r g q (ready 0 s)
      ≡ some (
        Secp256k1.verify e
              (take (Secp256k1Jni.public_key_size key) key)
              sig
              (Secp256k1Jni.padding_list message)
            == 0,
        ready 0 (used 3 s),
      )
unfolding Secp256k1Jni.verify Secp256k1Jni.verify_short
verify_lem e r g q key sig message s given given' given'' whole sized short =
    let a = s.next_address in
    let over = le→ltb 32 (length message) short in
    bind_step _ _ (copy_step q message s given'') (
      rw over (
        bind_step _ _ (copy_step r key _ given) (
          bind_step _ _ (copy_step g sig _ given') (
            bind_step _ _
              (read_public_key_step 0 (a + 1) (block (a + 1) (elements r) key) _ (ground arith)
                whole)
              (bind_step _ _
                (read_step 0 (a + 1 + 1) _ (block (a + 1 + 1) (elements g) sig) _ (ground arith)
                  sized)
                (bind_step _ _
                  (read_step 0 a _ (block a (elements q) message) _ (ground arith) refl)
                  (bind_step _ _ (copy_release_step r (a + 1) (a + 1) key _ (ground arith)) (
                    bind_step _ _ (copy_release_step g (a + 1 + 1) (a + 1 + 1) sig _ (ground arith))
                      (bind_step _ _ (copy_release_step q a a message _ (ground arith)) (
                        ground (
                          arith,
                          padding_list-full message,
                          update-lookup r key s.arrays given,
                          update-lookup g sig s.arrays given',
                          update-lookup q message s.arrays given'',
                        )))))))))))

-- A public key that is shorter than its first byte says, or empty, is read past the end of its
-- elements, where the message has at most 32 bytes and no request for memory is refused.
pub verify_overreads :
    (e : Ecdsa) (r g q : ℕ) (key sig message : Bytes) (s : Jvm)
    → lookup r s.arrays ≡ some key
    → lookup g s.arrays ≡ some sig
    → lookup q s.arrays ≡ some message
    → length key < Secp256k1Jni.public_key_size key
    → length message ≤ 32
    → Secp256k1Jni.verify e r g q (ready 0 s) ≡ none
unfolding Secp256k1Jni.verify Secp256k1Jni.verify_short
verify_overreads e r g q key sig message s given given' given'' too_short short =
    let a = s.next_address in
    let over = le→ltb 32 (length message) short in
    bind_step _ _ (copy_step q message s given'') (
      rw over (
        bind_step _ _ (copy_step r key _ given) (
          bind_step _ _ (copy_step g sig _ given') (
            bind_fault _ _ (
              read_public_key_past_end 0 (a + 1) (a + 1) (elements r) key _ (ground arith)
                too_short)))))

-- A message of more than 32 bytes is never verified, and its elements are not given back.
pub verify_long :
    (e : Ecdsa) (r g q : ℕ) (message : Bytes) (s : Jvm)
    → lookup q s.arrays ≡ some message
    → 32 < length message
    → Secp256k1Jni.verify e r g q (ready 0 s)
      ≡ some (false, ready 0 (with_block (elements q) message s))
unfolding Secp256k1Jni.verify
verify_long e r g q message s given long =
    let over = lt→ltb 32 (length message) long in
    bind_step _ _ (copy_step q message s given) (rw over (refl))

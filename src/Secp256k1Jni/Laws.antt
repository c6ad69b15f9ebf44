-- ===== src/Secp256k1Jni/Laws.antt =====
-- What the wrappers of secp256k1-wrapper.c return, and what they leave behind.
use chain_wallet.Common.{
  ℕ, ◌+◌, ◌≡◌, refl, sym, ◌∙◌, Bool, none, some, ◌∷◌, Bytes, length, replicate, length-replicate,
  arith, eq_self, lt→ltb, le→ltb, if◌then◌else◌, ◌<◌, ◌≤◌,
}
use chain_wallet.Jni.Machine.{Jvm, heap, elements, critical, lookup}
use chain_wallet.Jni.Steps.{
  ready, block, used, with_array, bind_step, update-lookup, calloc_step, copy_step, critical_step,
  read_step, write_step, copy_release_step, critical_release_step, new_array_step, set_region_step,
}
use chain_wallet.Jni.Arrays.{lookup-apart}
use chain_wallet.CryptoJni.DigestLaws.{return_bytes_step}
use chain_wallet.Secp256k1
use chain_wallet.Secp256k1.{Ecdsa}
use chain_wallet.Secp256k1Jni
use chain_wallet.Secp256k1Jni.Digest.{length-get_public, length-sign_any}

-- A block on the C heap that nothing frees.
abbrev pub leaked : Bytes → Jvm → Jvm
leaked v s = record s {
  blocks = block (s.next_address + 2) heap v ∷ s.blocks;
  next_address = s.next_address + 3;
}

-- For a key of 32 bytes a new array holds the public key, in the form that the flag asks for, if
-- no request for memory is refused. No block is left, no JNI call is made inside a critical
-- region, and nothing else has changed.
pub create_public_key_lem :
    (e : Ecdsa) (r : ℕ) (key : Bytes) (compressed : Bool) (s : Jvm)
    → lookup r s.arrays ≡ some key
    → length key ≡ 32
    → Secp256k1Jni.create_public_key e r compressed (ready 0 s)
      ≡ some (
        some s.next_ref,
        ready 0 (with_array (Secp256k1.get_public e key (if compressed then 1 else 0)) (used 2 s)),
      )
unfolding Secp256k1Jni.create_public_key
create_public_key_lem e r key compressed s given sized =
    let a = s.next_address in
    let size = if compressed then 33 else 65 in
    let v = Secp256k1.get_public e key (if compressed then 1 else 0) in
    let measured = length-get_public e key compressed in
    bind_step _ _ (critical_step r key s given) (
      bind_step _ _ (calloc_step 1 size _) (
        bind_step _ _ (read_step 1 a _ (block a (critical r) key) _ (ground arith) sized) (
          bind_step _ _
            (write_step 1 (a + 1) (block (a + 1) heap (replicate size 0)) v _ (ground arith)
              (measured ∙ sym (length-replicate size 0)))
            (bind_step _ _ (critical_release_step 0 r a a key _ (ground arith)) (
              return_bytes_step size (a + 1) (a + 1) v _ measured (ground arith)
              ∙ ground (arith, update-lookup r key s.arrays given))))))

module _ (e : Ecdsa) (r q : ℕ) (key message : Bytes) (s : Jvm)
    (given : lookup r s.arrays ≡ some key) (given' : lookup q s.arrays ≡ some message) where
  -- A message of more than 32 bytes is not signed: NULL comes back, and nothing has changed.
  pub sign_long :
      32 < length message → Secp256k1Jni.sign e r q (ready 0 s) ≡ some (none, ready 0 (used 1 s))
  unfolding Secp256k1Jni.sign
  sign_long long =
      let a = s.next_address in
      let over = lt→ltb 32 (length message) long in
      bind_step _ _ (copy_step q message s given') (
        rw over (
          bind_step _ _ (copy_release_step q a a message _ (ground arith))
            (ground (arith, update-lookup q message s.arrays given'))))

  -- For a key of 32 bytes and a message of at most 32 a new array holds the signature, if no
  -- request for memory is refused and the next reference is free. Both arrays are as before. The
  -- block that the signature was made in is still there: nothing frees it.
  pub sign_lem :
      {sig : Bytes} {v : ℕ}
      → length key ≡ 32
      → length message ≤ 32
      → lookup s.next_ref s.arrays ≡ none
      → Secp256k1Jni.sign_any e key message ≡ some (sig, v)
      → Secp256k1Jni.sign e r q (ready 0 s)
        ≡ some (some s.next_ref, ready 0 (with_array sig (leaked sig s)))
  unfolding Secp256k1Jni.sign Secp256k1Jni.sign_short
  sign_lem {sig} {v} sized short free signed =
      let a = s.next_address in
      let measured = length-sign_any e key message signed in
      let r_apart = lookup-apart r s.next_ref s.arrays given free in
      let q_apart = lookup-apart q s.next_ref s.arrays given' free in
      let over = le→ltb 32 (length message) short in
      bind_step _ _ (copy_step q message s given') (
        rw over (
          bind_step _ _ (copy_step r key _ given) (
            bind_step _ _ (calloc_step 0 64 _) (
              bind_step _ _
                (read_step 0 (a + 1) _ (block (a + 1) (elements r) key) _ (ground arith) sized)
                (bind_step _ _
                  (read_step 0 a _ (block a (elements q) message) _ (ground arith) refl)
                  (rw signed (
                    bind_step _ _
                      (write_step 0 (a + 1 + 1) (block (a + 1 + 1) heap (replicate 64 0)) sig _
                        (ground arith) measured)
                      (bind_step _ _ (new_array_step 64 _) (
                        bind_step _ _
                          (set_region_step s.next_ref 64 (a + 1 + 1) (block (a + 1 + 1) heap sig)
                            (replicate 64 0) _ (ground arith) (rw eq_self refl) measured refl)
                          (bind_step _ _ (copy_release_step r (a + 1) (a + 1) key _ (ground arith))
                            (bind_step _ _ (copy_release_step q a a message _ (ground arith)) (
                              ground (
                                arith,
                                r_apart,
                                q_apart,
                                update-lookup r key s.arrays given,
                                update-lookup q message s.arrays given',
                              )))))))))))))

  -- Where the curve's code refuses to sign, NULL comes back and a block of 64 zeros is left.
  pub sign_refused :
      length key ≡ 32
      → length message ≤ 32
      → Secp256k1Jni.sign_any e key message ≡ none
      → Secp256k1Jni.sign e r q (ready 0 s) ≡ some (none, ready 0 (leaked (replicate 64 0) s))
  unfolding Secp256k1Jni.sign Secp256k1Jni.sign_short
  sign_refused sized short refused =
      let a = s.next_address in
      let over = le→ltb 32 (length message) short in
      bind_step _ _ (copy_step q message s given') (
        rw over (
          bind_step _ _ (copy_step r key _ given) (
            bind_step _ _ (calloc_step 0 64 _) (
              bind_step _ _
                (read_step 0 (a + 1) _ (block (a + 1) (elements r) key) _ (ground arith) sized)
                (bind_step _ _
                  (read_step 0 a _ (block a (elements q) message) _ (ground arith) refl)
                  (rw refused (
                    bind_step _ _ (copy_release_step r (a + 1) (a + 1) key _ (ground arith)) (
                      bind_step _ _ (copy_release_step q a a message _ (ground arith)) (
                        ground (
                          arith,
                          update-lookup r key s.arrays given,
                          update-lookup q message s.arrays given',
                        ))))))))))

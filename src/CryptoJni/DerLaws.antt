-- ===== src/CryptoJni/DerLaws.antt =====
-- What the DER wrappers of crypto-wrapper.c return, and what they leave behind.
use chain_wallet.Common.{
  ℕ, ◌+◌, ◌≡◌, ◌≢◌, ◌≤◌, ◌<◌, ◌∷◌, ◌++◌, refl, ◌∙◌, some, none, Bytes, length, replicate, arith,
  length-append, take, take-append, drop, zeros,
}
use chain_wallet.Jni.Machine.{Jvm, heap, critical, lookup}
use chain_wallet.Jni.Memory.{overwrite}
use chain_wallet.Jni.Steps.{
  ready, block, used, bind_step, bind_fault, update-lookup, critical_step, read_step, write_step,
  calloc_step, lift_step, free_step, critical_release_step, with_array,
}
use chain_wallet.CryptoJni.DigestLaws.{return_bytes_step}
use chain_wallet.CryptoJni.Parts.{write_part_step, return_part_step}
use chain_wallet.Der
use chain_wallet.Der.Overread.{sig_to_der-zero_half}
use chain_wallet.Der.Overrun.{der_to_sig-long}
use chain_wallet.Der.{accepted, rejected}
use chain_wallet.CryptoJni.Codecs

module _ (r : ℕ) (input : Bytes) (s : Jvm) (given : lookup r s.arrays ≡ some input) where
  pub der_to_sig_lem :
      {sig : Bytes} {n : ℕ}
      → Der.der_to_sig input ≡ some (accepted (sig, n))
      → length sig ≡ 64
      → Codecs.der_to_sig r (ready 0 s)
        ≡ some (some s.next_ref, ready 0 (with_array sig (used 2 s)))
  unfolding Codecs.der_to_sig
  der_to_sig_lem {sig} {n} read_back sized =
      let a = s.next_address in
      bind_step _ _ (calloc_step 0 64 s) (
        bind_step _ _ (critical_step r input _ given) (
          bind_step _ _
            (read_step 1 (a + 1) _ (block (a + 1) (critical r) input) _ (ground arith) refl)
            (bind_step _ _ (lift_step _ (accepted (sig, n)) _ read_back) (
              bind_step _ _
                (write_step 1 a (block a heap (replicate 64 0)) sig _ (ground arith) sized)
                (bind_step _ _ (critical_release_step 0 r (a + 1) (a + 1) input _ (ground arith)) (
                  return_bytes_step 64 a a sig _ sized (ground arith)
                  ∙ ground (arith, update-lookup r input s.arrays given)))))))

  pub der_to_sig_rejected :
      Der.der_to_sig input ≡ some rejected
      → Codecs.der_to_sig r (ready 0 s) ≡ some (none, ready 0 (used 2 s))
  unfolding Codecs.der_to_sig
  der_to_sig_rejected refused =
      let a = s.next_address in
      bind_step _ _ (calloc_step 0 64 s) (
        bind_step _ _ (critical_step r input _ given) (
          bind_step _ _
            (read_step 1 (a + 1) _ (block (a + 1) (critical r) input) _ (ground arith) refl)
            (bind_step _ _ (lift_step _ rejected _ refused) (
              bind_step _ _ (critical_release_step 0 r (a + 1) (a + 1) input _ (ground arith)) (
                bind_step _ _ (free_step 0 a a (replicate 64 0) _ (ground arith))
                  (ground (arith, update-lookup r input s.arrays given)))))))

  pub sig_to_der_lem :
      {der : Bytes} {n : ℕ}
      → Der.sig_to_der input ≡ some (der, n)
      → length der ≡ n
      → n ≤ 72
      → Codecs.sig_to_der r (ready 0 s)
        ≡ some (some s.next_ref, ready 0 (with_array der (used 2 s)))
  unfolding Codecs.sig_to_der
  sig_to_der_lem {der} {n} written sized short =
      let a = s.next_address in
      let whole = overwrite der (replicate 72 0) in
      let start : take n whole ≡ der = rw (← sized) (take-append der _) in
      let room : n ≤ length whole = omega (arith, length-append der _) in
      bind_step _ _ (calloc_step 0 72 s) (
        bind_step _ _ (critical_step r input _ given) (
          bind_step _ _
            (read_step 1 (a + 1) _ (block (a + 1) (critical r) input) _ (ground arith) refl)
            (bind_step _ _ (lift_step _ (der, n) _ written) (
              bind_step _ _
                (write_part_step 1 a (block a heap (replicate 72 0)) der _ (ground arith)
                  (omega arith))
                (bind_step _ _ (critical_release_step 0 r (a + 1) (a + 1) input _ (ground arith)) (
                  return_part_step n a a whole _ room (ground arith)
                  ∙ ground (arith, update-lookup r input s.arrays given, start)))))))

  -- `sig_to_der` of an array of 64 bytes whose last 32 are zero is a fault: it reads past the
  -- elements.
  pub sig_to_der_overreads :
      length input ≡ 64 → drop 32 input ≡ zeros 32 → Codecs.sig_to_der r (ready 0 s) ≡ none
  unfolding Codecs.sig_to_der
  sig_to_der_overreads long empty =
      let a = s.next_address in
      bind_step _ _ (calloc_step 0 72 s) (
        bind_step _ _ (critical_step r input _ given) (
          bind_step _ _
            (read_step 1 (a + 1) _ (block (a + 1) (critical r) input) _ (ground arith) refl)
            (bind_fault _ _ (rw (sig_to_der-zero_half input empty) refl))))

module _ (r len b : ℕ) (v rest : Bytes) (s : Jvm)
    (given : lookup r s.arrays
      ≡ some (0x30 ∷ len ∷ 0x02 ∷ length (b ∷ v) ∷ ((b ∷ v) ++ 0x02 ∷ rest))) where
  -- `der_to_sig` of two integers of which the first has more than 32 bytes and does not begin with a zero
  -- is a fault, whatever stands in the second: the lengths are not compared with the 64 bytes of the
  -- block.
  pub der_to_sig_overruns : b ≢ 0 → 32 < length (b ∷ v) → Codecs.der_to_sig r (ready 0 s) ≡ none
  unfolding Codecs.der_to_sig
  der_to_sig_overruns nz long =
      let a = s.next_address in
      let input : Bytes = 0x30 ∷ len ∷ 0x02 ∷ length (b ∷ v) ∷ ((b ∷ v) ++ 0x02 ∷ rest) in
      bind_step _ _ (calloc_step 0 64 s) (
        bind_step _ _ (critical_step r input _ given) (
          bind_step _ _
            (read_step 1 (a + 1) _ (block (a + 1) (critical r) input) _ (ground arith) refl)
            (bind_fault _ _ (rw (der_to_sig-long len b v rest nz long) refl))))

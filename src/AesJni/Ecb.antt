-- ===== src/AesJni/Ecb.antt =====
-- `encrypt` and `decrypt` of aes-wrapper.c in mode 0, ECB, which does not read the IV.
use chain_wallet.Common.{
  ℕ, ◌+◌, ◌≡◌, refl, ap, ◌∙◌, Option, none, some, [], Bytes, length, arith, eq_self,
}
use chain_wallet.Jni.Machine.{Ptr, Jvm, M, lookup}
use chain_wallet.Jni.Steps.{ready, used, with_array, update-lookup}
use chain_wallet.AesJni
use chain_wallet.AesJni.{Aes}
use chain_wallet.AesJni.Steps.{run_step, run_refused}

module _ (k d i : ℕ) (key input iv : Bytes) (s : Jvm) (has_key : lookup k s.arrays ≡ some key)
    (has_input : lookup d s.arrays ≡ some input) (has_iv : lookup i s.arrays ≡ some iv) where
  -- A cipher that leaves the IV alone.
  ecb_run :
      (expand : Bytes → Option Bytes) (switch : Bytes → Bytes → Ptr → M (Option Bytes))
      {ctx out : Bytes}
      → expand key ≡ some ctx
      → ((p : Ptr) (t : Jvm) → switch ctx input p t ≡ some (some out, t))
      → length out ≡ length input
      → lookup s.next_ref s.arrays ≡ none
      → AesJni.run expand switch k d i (ready 0 s)
        ≡ some (some s.next_ref, ready 0 (with_array out (used 3 s)))
  ecb_run expand switch {ctx} {out} expanded ran sized free =
      let a = s.next_address in
      run_step k d i key input iv s has_key has_input has_iv expand switch iv expanded
        (ran (some (a + 1 + 1)) _ ∙ rw eq_self refl) sized free
      ∙ ground (arith, update-lookup i iv s.arrays has_iv)

  module _ (e : Aes) where
    -- `encrypt` in mode 0 where the code accepts the key and the data: a new array holds the output, and nothing
    -- else has changed. No request for memory is refused and the next reference is free.
    pub encrypt_ecb_lem :
        {ctx out : Bytes}
        → e.encrypt_key key ≡ some ctx
        → e.ecb_encrypt ctx input ≡ some out
        → length out ≡ length input
        → lookup s.next_ref s.arrays ≡ none
        → AesJni.encrypt e k d i 0 (ready 0 s)
          ≡ some (some s.next_ref, ready 0 (with_array out (used 3 s)))
    unfolding AesJni.encrypt AesJni.encrypt_switch
    encrypt_ecb_lem expanded done sized free =
        ecb_run e.encrypt_key (AesJni.encrypt_switch e 0) expanded
          (λ p t. ap (λ o. some (o, t)) done) sized free

    pub decrypt_ecb_lem :
        {ctx out : Bytes}
        → e.decrypt_key key ≡ some ctx
        → e.ecb_decrypt ctx input ≡ some out
        → length out ≡ length input
        → lookup s.next_ref s.arrays ≡ none
        → AesJni.decrypt e k d i 0 (ready 0 s)
          ≡ some (some s.next_ref, ready 0 (with_array out (used 3 s)))
    unfolding AesJni.decrypt AesJni.decrypt_switch AesJni.expand_for_decrypt
    decrypt_ecb_lem expanded done sized free =
        ecb_run (AesJni.expand_for_decrypt e 0) (AesJni.decrypt_switch e 0) expanded
          (λ p t. ap (λ o. some (o, t)) done) sized free

    pub encrypt_ecb_refused :
        {ctx : Bytes}
        → e.encrypt_key key ≡ some ctx
        → e.ecb_encrypt ctx input ≡ none
        → AesJni.encrypt e k d i 0 (ready 0 s)
          ≡ some (some s.next_ref, ready 0 (with_array [] (used 3 s)))
    unfolding AesJni.encrypt AesJni.encrypt_switch
    encrypt_ecb_refused expanded refused =
        run_refused k d i key input iv s has_key has_input has_iv e.encrypt_key
          (AesJni.encrypt_switch e 0) expanded (rw refused refl)

    pub decrypt_ecb_refused :
        {ctx : Bytes}
        → e.decrypt_key key ≡ some ctx
        → e.ecb_decrypt ctx input ≡ none
        → AesJni.decrypt e k d i 0 (ready 0 s)
          ≡ some (some s.next_ref, ready 0 (with_array [] (used 3 s)))
    unfolding AesJni.decrypt AesJni.decrypt_switch AesJni.expand_for_decrypt
    decrypt_ecb_refused expanded refused =
        run_refused k d i key input iv s has_key has_input has_iv (AesJni.expand_for_decrypt e 0)
          (AesJni.decrypt_switch e 0) expanded (rw refused refl)

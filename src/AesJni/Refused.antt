-- ===== src/AesJni/Refused.antt =====
-- `encrypt` and `decrypt` of aes-wrapper.c where a cipher with an IV refuses the data.
use chain_wallet.Common.{ℕ, ◌+◌, ◌≡◌, refl, ◌∙◌, some, none, [], Bytes, length, eq_self}
use chain_wallet.Jni.Machine.{Jvm, lookup}
use chain_wallet.Jni.Steps.{ready, used, with_array}
use chain_wallet.AesJni
use chain_wallet.AesJni.{Aes}
use chain_wallet.AesJni.Steps.{run_refused, run_chained_refused}
use chain_wallet.AesJni.Laws.{
  Mode, number, encryption, decryption, decryption_key, encrypt_switch_step, decrypt_switch_step,
  expand_step,
}

module _ (e : Aes) (m : Mode) (k d i : ℕ) (key input iv : Bytes) (s : Jvm) {ctx : Bytes}
    (has_key : lookup k s.arrays ≡ some key) (has_input : lookup d s.arrays ≡ some input)
    (has_iv : lookup i s.arrays ≡ some iv) (sized : length iv ≡ 16) where
  pub encrypt_chained_refused :
      e.encrypt_key key ≡ some ctx
      → encryption e m ctx input iv ≡ none
      → AesJni.encrypt e k d i (number m) (ready 0 s)
        ≡ some (some s.next_ref, ready 0 (with_array [] (used 3 s)))
  unfolding AesJni.encrypt
  encrypt_chained_refused expanded refused =
      let c = s.next_address + 1 + 1 in
      run_refused k d i key input iv s has_key has_input has_iv e.encrypt_key
        (AesJni.encrypt_switch e (number m)) expanded
        (encrypt_switch_step e m ctx input (some c) _
          ∙ run_chained_refused (encryption e m) ctx input c c i iv _ (rw eq_self refl) sized
              refused)

  pub decrypt_chained_refused :
      decryption_key e m key ≡ some ctx
      → decryption e m ctx input iv ≡ none
      → AesJni.decrypt e k d i (number m) (ready 0 s)
        ≡ some (some s.next_ref, ready 0 (with_array [] (used 3 s)))
  unfolding AesJni.decrypt
  decrypt_chained_refused expanded refused =
      let c = s.next_address + 1 + 1 in
      run_refused k d i key input iv s has_key has_input has_iv
        (AesJni.expand_for_decrypt e (number m)) (AesJni.decrypt_switch e (number m))
        (expand_step e m key ∙ expanded)
        (decrypt_switch_step e m ctx input (some c) _
          ∙ run_chained_refused (decryption e m) ctx input c c i iv _ (rw eq_self refl) sized
              refused)

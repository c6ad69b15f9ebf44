-- ===== src/AesJni/Laws.antt =====
-- What `encrypt` and `decrypt` of aes-wrapper.c return, and what becomes of the caller's IV.
use chain_wallet.Common.{
  ℕ, ◌+◌, ◌≡◌, refl, ◌∙◌, Option, none, some, [], Bytes, length, arith, eq_self, ◌⊎◌, inl, inr,
  Option-cases, ◌<◌,
}
use chain_wallet.Jni.Machine.{Ptr, Jvm, lookup}
use chain_wallet.Jni.Steps.{ready, used, with_array, set_array}
use chain_wallet.AesJni
use chain_wallet.AesJni.{Aes, Chained}
use chain_wallet.AesJni.Steps.{run_chained_step, run_step, run_refused_key, run_refused}

-- The modes that have an IV, by their number.
pub data Mode : Type 0 where
  cbc cfb ofb ctr : Mode

abbrev pub number : Mode → ℕ
number cbc = 1
number cfb = 2
number ofb = 3
number ctr = 4

abbrev pub encryption : Aes → Mode → Chained
encryption e cbc = e.cbc_encrypt
encryption e cfb = e.cfb_encrypt
encryption e ofb = e.ofb_encrypt
encryption e ctr = e.ctr_encrypt

abbrev pub decryption : Aes → Mode → Chained
decryption e cbc = e.cbc_decrypt
decryption e cfb = e.cfb_decrypt
decryption e ofb = e.ofb_decrypt
decryption e ctr = e.ctr_decrypt

-- CBC is decrypted with the inverse cipher's key.
abbrev pub decryption_key : Aes → Mode → Bytes → Option Bytes
decryption_key e cbc = e.decrypt_key
decryption_key e _ = e.encrypt_key

pub encrypt_switch_step :
    (e : Aes) (m : Mode) (ctx d : Bytes) (p : Ptr) (s : Jvm)
    → AesJni.encrypt_switch e (number m) ctx d p s ≡ AesJni.run_chained (encryption e m) ctx d p s
unfolding AesJni.encrypt_switch
encrypt_switch_step e cbc ctx d p s = refl
encrypt_switch_step e cfb ctx d p s = refl
encrypt_switch_step e ofb ctx d p s = refl
encrypt_switch_step e ctr ctx d p s = refl

pub decrypt_switch_step :
    (e : Aes) (m : Mode) (ctx d : Bytes) (p : Ptr) (s : Jvm)
    → AesJni.decrypt_switch e (number m) ctx d p s ≡ AesJni.run_chained (decryption e m) ctx d p s
unfolding AesJni.decrypt_switch
decrypt_switch_step e cbc ctx d p s = refl
decrypt_switch_step e cfb ctx d p s = refl
decrypt_switch_step e ofb ctx d p s = refl
decrypt_switch_step e ctr ctx d p s = refl

pub expand_step :
    (e : Aes) (m : Mode) (k : Bytes)
    → AesJni.expand_for_decrypt e (number m) k ≡ decryption_key e m k
unfolding AesJni.expand_for_decrypt
expand_step e cbc k = refl
expand_step e cfb k = refl
expand_step e ofb k = refl
expand_step e ctr k = refl

-- `encrypt` in a mode that has an IV, where the code accepts the key and the data: a new array holds
-- the output, and the caller's IV has become what the cipher made of it. The key and the data
-- are as before and no block is left. The IV has 16 bytes, no request for memory is refused and the
-- next reference is free.
pub encrypt_chained_lem :
    (e : Aes) (m : Mode) (k d i : ℕ) (key input iv : Bytes) (s : Jvm) {ctx out v : Bytes}
    → lookup k s.arrays ≡ some key
    → lookup d s.arrays ≡ some input
    → lookup i s.arrays ≡ some iv
    → length iv ≡ 16
    → e.encrypt_key key ≡ some ctx
    → encryption e m ctx input iv ≡ some (out, v)
    → length out ≡ length input
    → length v ≡ 16
    → lookup s.next_ref s.arrays ≡ none
    → AesJni.encrypt e k d i (number m) (ready 0 s)
      ≡ some (some s.next_ref, ready 0 (with_array out (set_array i v (used 3 s))))
unfolding AesJni.encrypt
encrypt_chained_lem e m k d i key input iv s {ctx} {out} {v} has_key has_input has_iv sized expanded
      done sized_out sized_iv free =
    let c = s.next_address + 1 + 1 in
    run_step k d i key input iv s has_key has_input has_iv _ _ v (expanded)
      (encrypt_switch_step e m ctx input (some c) _
        ∙ run_chained_step (encryption e m) ctx input c c i iv _ (rw eq_self refl) sized done
            sized_iv)
      sized_out free

-- `decrypt` in a mode that has an IV, where the code accepts the key and the data: a new array holds
-- the output, and the caller's IV has become what the cipher made of it. The key and the data
-- are as before and no block is left. The IV has 16 bytes, no request for memory is refused and the
-- next reference is free.
pub decrypt_chained_lem :
    (e : Aes) (m : Mode) (k d i : ℕ) (key input iv : Bytes) (s : Jvm) {ctx out v : Bytes}
    → lookup k s.arrays ≡ some key
    → lookup d s.arrays ≡ some input
    → lookup i s.arrays ≡ some iv
    → length iv ≡ 16
    → decryption_key e m key ≡ some ctx
    → decryption e m ctx input iv ≡ some (out, v)
    → length out ≡ length input
    → length v ≡ 16
    → lookup s.next_ref s.arrays ≡ none
    → AesJni.decrypt e k d i (number m) (ready 0 s)
      ≡ some (some s.next_ref, ready 0 (with_array out (set_array i v (used 3 s))))
unfolding AesJni.decrypt
decrypt_chained_lem e m k d i key input iv s {ctx} {out} {v} has_key has_input has_iv sized expanded
      done sized_out sized_iv free =
    let c = s.next_address + 1 + 1 in
    run_step k d i key input iv s has_key has_input has_iv _ _ v (expand_step e m key ∙ expanded)
      (decrypt_switch_step e m ctx input (some c) _
        ∙ run_chained_step (decryption e m) ctx input c c i iv _ (rw eq_self refl) sized done
            sized_iv)
      sized_out free

-- `encrypt` with a key that the code refuses, or in a mode beyond 4, returns a new empty array; nothing
-- else has changed. No request for memory is refused.
pub encrypt_refused :
    (e : Aes) (k d i mode : ℕ) (key input iv : Bytes) (s : Jvm)
    → lookup k s.arrays ≡ some key
    → lookup d s.arrays ≡ some input
    → lookup i s.arrays ≡ some iv
    → (e.encrypt_key key ≡ none) ⊎ (4 < mode)
    → AesJni.encrypt e k d i mode (ready 0 s)
      ≡ some (some s.next_ref, ready 0 (with_array [] (used 3 s)))
unfolding AesJni.encrypt AesJni.encrypt_switch AesJni.expand_for_decrypt
encrypt_refused e k d i mode key input iv s has_key has_input has_iv (inl refused) =
    run_refused_key k d i key input iv s has_key has_input has_iv _ _ refused
encrypt_refused e k d i mode key input iv s has_key has_input has_iv (inr beyond) =
    elim (Option-cases (e.encrypt_key key)) [
      | inl refused ↦ run_refused_key k d i key input iv s has_key has_input has_iv _ _ refused
      | inr (ctx, expanded) ↦
          run_refused k d i key input iv s has_key has_input has_iv _ _ expanded (ground arith)
    ]

-- `decrypt` with a key that the code refuses, or in a mode beyond 4, returns a new empty array; nothing
-- else has changed. No request for memory is refused.
pub decrypt_refused :
    (e : Aes) (k d i mode : ℕ) (key input iv : Bytes) (s : Jvm)
    → lookup k s.arrays ≡ some key
    → lookup d s.arrays ≡ some input
    → lookup i s.arrays ≡ some iv
    → (AesJni.expand_for_decrypt e mode key ≡ none) ⊎ (4 < mode)
    → AesJni.decrypt e k d i mode (ready 0 s)
      ≡ some (some s.next_ref, ready 0 (with_array [] (used 3 s)))
unfolding AesJni.decrypt AesJni.decrypt_switch AesJni.expand_for_decrypt
decrypt_refused e k d i mode key input iv s has_key has_input has_iv (inl refused) =
    run_refused_key k d i key input iv s has_key has_input has_iv _ _ refused
decrypt_refused e k d i mode key input iv s has_key has_input has_iv (inr beyond) =
    elim (Option-cases (AesJni.expand_for_decrypt e mode key)) [
      | inl refused ↦ run_refused_key k d i key input iv s has_key has_input has_iv _ _ refused
      | inr (ctx, expanded) ↦
          run_refused k d i key input iv s has_key has_input has_iv _ _ expanded (ground arith)
    ]

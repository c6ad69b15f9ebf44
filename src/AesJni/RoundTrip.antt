-- ===== src/AesJni/RoundTrip.antt =====
-- What `encrypt` writes, `decrypt` of aes-wrapper.c reads back, if it is given the first IV.
use chain_wallet.Common.{
  ℕ, ◌+◌, ◌≡◌, refl, ◌∙◌, sym, false, none, some, [], ◌∷◌, Bytes, length, ◌==◌, arith, eq_self,
}
use chain_wallet.Jni.Machine.{Ptr, Store, Jvm, M, pure, lookup, update, ◌>>=◌}
use chain_wallet.Jni.Steps.{ready, used, with_array, set_array, bind_step}
use chain_wallet.Jni.Arrays.{lookup-apart}
use chain_wallet.AesJni
use chain_wallet.AesJni.{Aes}
use chain_wallet.AesJni.Laws.{
  Mode, number, encryption, decryption, decryption_key, encrypt_chained_lem, decrypt_chained_lem,
}

-- A client that encrypts the array `d` under the key `k` with the IV `i`, and decrypts the result
-- with the IV `j`.
abbrev pub encrypt_then_decrypt : Aes → Mode → ℕ → ℕ → ℕ → ℕ → M Ptr
encrypt_then_decrypt e m k d i j = do
  encrypted ← AesJni.encrypt e k d i (number m)
  elim encrypted [ none ↦ pure none | some g ↦ AesJni.decrypt e k g j (number m) ]

-- Decryption from the same IV undoes encryption, byte for byte.
abbrev pub IsInverse : Aes → Mode → Type 0
IsInverse e m =
    (key ctx ctx' input iv out v : Bytes)
    → e.encrypt_key key ≡ some ctx
    → decryption_key e m key ≡ some ctx'
    → encryption e m ctx input iv ≡ some (out, v)
    → decryption e m ctx' out iv ≡ some (input, v)

lookup-update_apart :
    (r i : ℕ) (v : Bytes) (m : Store) → (r == i) ≡ false → lookup r (update i v m) ≡ lookup r m
lookup-update_apart r i v [] h = refl
lookup-update_apart r i v ((q, w) ∷ m) h = ground (arith, lookup-update_apart r i v m h)

lookup-update_free :
    (r i : ℕ) (v : Bytes) (m : Store) → lookup r m ≡ none → lookup r (update i v m) ≡ none
lookup-update_free r i v [] h = refl
lookup-update_free r i v ((q, w) ∷ m) h = ground (arith, lookup-update_free r i v m)

-- In a mode with an IV, over a cipher whose decryption undoes its encryption, `decrypt` of what
-- `encrypt` returned is a new array with the data, if it is given another array that holds the IV
-- as it was: the first one has changed. The IV has 16 bytes, it is neither the key's array nor the
-- second IV's, the code accepts the key and the data, no request for memory is refused and the next
-- two references are free.
pub decrypt-encrypt :
    (e : Aes) (m : Mode) (k d i j : ℕ) (key input iv : Bytes) (s : Jvm) {ctx ctx' out v : Bytes}
    → IsInverse e m
    → lookup k s.arrays ≡ some key
    → lookup d s.arrays ≡ some input
    → lookup i s.arrays ≡ some iv
    → lookup j s.arrays ≡ some iv
    → (k == i) ≡ false
    → (j == i) ≡ false
    → length iv ≡ 16
    → e.encrypt_key key ≡ some ctx
    → decryption_key e m key ≡ some ctx'
    → encryption e m ctx input iv ≡ some (out, v)
    → length out ≡ length input
    → length v ≡ 16
    → lookup s.next_ref s.arrays ≡ none
    → lookup (s.next_ref + 1) s.arrays ≡ none
    → encrypt_then_decrypt e m k d i j (ready 0 s)
      ≡ some (
        some (s.next_ref + 1),
        ready 0
            (with_array input (set_array j v (used 3 (with_array out (set_array i v (used 3 s)))))),
      )
decrypt-encrypt e m k d i j key input iv s {ctx} {ctx'} {out} {v} inverse has_key has_input has_iv
      has_iv' k_other j_other sized expanded expanded' done sized_out sized_v free free' =
    let k_apart = lookup-apart k s.next_ref s.arrays has_key free in
    let j_apart = lookup-apart j s.next_ref s.arrays has_iv' free in
    let undone = inverse key ctx ctx' input iv out v expanded expanded' done in
    bind_step _ _
      (encrypt_chained_lem e m k d i key input iv s has_key has_input has_iv sized expanded done
        sized_out sized_v free)
      (decrypt_chained_lem e m k s.next_ref j key out iv (with_array out (set_array i v (used 3 s)))
        (rw k_apart (lookup-update_apart k i v s.arrays k_other ∙ has_key)) (rw eq_self refl)
        (rw j_apart (lookup-update_apart j i v s.arrays j_other ∙ has_iv')) sized expanded' undone
        (sym sized_out) sized_v
        (ground (arith, lookup-update_free (s.next_ref + 1) i v s.arrays free')))

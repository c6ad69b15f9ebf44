-- ===== src/Native/CiphersMeet.antt =====
-- The functions of `Aes` and their promises.
use chain_wallet.Common.{
  ℕ, Bytes, ◌&&◌, ◌≡◌, refl, ap, ◌∙◌, ◌==◌, ltb, none, some, arith, length, inl, inr,
}
use chain_wallet.Jni.Machine.{Jvm, lookup}
use chain_wallet.Jni.Steps.{ready}
use chain_wallet.Jni.Valid.{Below, lookup-free}
use chain_wallet.AesJni
use chain_wallet.AesJni.{Aes}
use chain_wallet.AesJni.Laws.{
  Mode, cbc, cfb, ofb, ctr, number, encryption, decryption, decryption_key, encrypt_chained_lem,
  decrypt_chained_lem, encrypt_refused, decrypt_refused, expand_step,
}
use chain_wallet.AesJni.Ecb.{
  encrypt_ecb_lem, decrypt_ecb_lem, encrypt_ecb_refused, decrypt_ecb_refused,
}
use chain_wallet.AesJni.Refused.{encrypt_chained_refused, decrypt_chained_refused}
use chain_wallet.Native.{Library, Request, reference, perform}
use chain_wallet.Native.View.{mode_of}
use chain_wallet.Native.Spec.{spec}
use chain_wallet.Native.Implements.{
  Meets, needs-Implements, bind-Implements, choose-Implements, if-Implements, answer,
}

mode_of-number : (n : ℕ) (m : Mode) → mode_of n ≡ some m → n ≡ number m
mode_of-number n cbc h = ground arith
mode_of-number n cfb h = ground arith
mode_of-number n ofb h = ground arith
mode_of-number n ctr h = ground arith

expand_ecb : (e : Aes) (key : Bytes) → AesJni.expand_for_decrypt e 0 key ≡ e.decrypt_key key
unfolding AesJni.expand_for_decrypt
expand_ecb e key = refl

module _ (l : Library) (s : Jvm) (below : Below s.next_ref s.arrays) where
  free : lookup s.next_ref s.arrays ≡ none
  free = lookup-free s.arrays s.next_ref s.next_ref (omega arith) below

  pub aes_encrypt-Meets : (k d i mode : ℕ) → Meets l s (Request.aes_encrypt k d i mode)
  unfolding perform spec
  aes_encrypt-Meets k d i mode = bind-Implements _ _ (lookup k s.arrays) _ λ key e.
      bind-Implements _ _ (lookup d s.arrays) _ λ x f.
        bind-Implements _ _ (lookup i s.arrays) _ λ v g.
          if-Implements _ _ (ltb 4 mode) _ _
            (λ h.
              answer reference _ s _
                (encrypt_refused l.aes k d i mode key x v s e f g (inr (ground arith))) refl)
            (λ h.
              if-Implements _ _ (mode == 0) _ _
                (λ z.
                  let same : mode ≡ 0 = ground arith in
                  let at = ap (λ n. AesJni.encrypt l.aes k d i n (ready 0 s)) same in
                  choose-Implements _ _ (l.aes.encrypt_key key) _ _
                    (λ refused.
                      answer reference _ s _
                        (at ∙ encrypt_refused l.aes k d i 0 key x v s e f g (inl (refused))) refl)
                    (λ ctx expanded.
                      choose-Implements _ _ (l.aes.ecb_encrypt ctx x) _ _
                        (λ refused.
                          answer reference _ s _
                            (at ∙ encrypt_ecb_refused k d i key x v s e f g l.aes expanded refused)
                            refl)
                        (λ out done. needs-Implements _ _ (length out == length x) _ λ fits.
                          answer reference _ s _
                            (at
                              ∙ encrypt_ecb_lem k d i key x v s e f g l.aes expanded done
                                  (ground arith) free)
                            refl)))
                (λ z. bind-Implements _ _ (mode_of mode) _ λ m j.
                  needs-Implements _ _ (length v == 16) _ λ sized.
                    let same = mode_of-number mode m j in
                    let at = ap (λ n. AesJni.encrypt l.aes k d i n (ready 0 s)) same in
                    choose-Implements _ _ (l.aes.encrypt_key key) _ _
                      (λ refused.
                        answer reference _ s _
                          (encrypt_refused l.aes k d i mode key x v s e f g (inl refused)) refl)
                      (λ ctx expanded.
                        choose-Implements _ _ (encryption l.aes m ctx x v) _ _
                          (λ refused.
                            answer reference _ s _
                              (at
                                ∙ encrypt_chained_refused l.aes m k d i key x v s e f g
                                    (ground arith) expanded refused)
                              refl)
                          (λ o done.
                            needs-Implements _ _ (length (o.0) == length x && length (o.1) == 16) _
                              λ fits.
                                answer reference _ s _
                                  (at
                                    ∙ encrypt_chained_lem l.aes m k d i key x v s e f g
                                        (ground arith) expanded done (ground arith) (ground arith)
                                        free)
                                  refl))))

  pub aes_decrypt-Meets : (k d i mode : ℕ) → Meets l s (Request.aes_decrypt k d i mode)
  unfolding perform spec
  aes_decrypt-Meets k d i mode = bind-Implements _ _ (lookup k s.arrays) _ λ key e.
      bind-Implements _ _ (lookup d s.arrays) _ λ x f.
        bind-Implements _ _ (lookup i s.arrays) _ λ v g.
          if-Implements _ _ (ltb 4 mode) _ _
            (λ h.
              answer reference _ s _
                (decrypt_refused l.aes k d i mode key x v s e f g (inr (ground arith))) refl)
            (λ h.
              if-Implements _ _ (mode == 0) _ _
                (λ z.
                  let same : mode ≡ 0 = ground arith in
                  let at = ap (λ n. AesJni.decrypt l.aes k d i n (ready 0 s)) same in
                  choose-Implements _ _ (l.aes.decrypt_key key) _ _
                    (λ refused.
                      answer reference _ s _
                        (at
                          ∙ decrypt_refused l.aes k d i 0 key x v s e f g
                              (inl (expand_ecb l.aes key ∙ refused)))
                        refl)
                    (λ ctx expanded.
                      choose-Implements _ _ (l.aes.ecb_decrypt ctx x) _ _
                        (λ refused.
                          answer reference _ s _
                            (at ∙ decrypt_ecb_refused k d i key x v s e f g l.aes expanded refused)
                            refl)
                        (λ out done. needs-Implements _ _ (length out == length x) _ λ fits.
                          answer reference _ s _
                            (at
                              ∙ decrypt_ecb_lem k d i key x v s e f g l.aes expanded done
                                  (ground arith) free)
                            refl)))
                (λ z. bind-Implements _ _ (mode_of mode) _ λ m j.
                  needs-Implements _ _ (length v == 16) _ λ sized.
                    let same = mode_of-number mode m j in
                    let at = ap (λ n. AesJni.decrypt l.aes k d i n (ready 0 s)) same in
                    choose-Implements _ _ (decryption_key l.aes m key) _ _
                      (λ refused.
                        answer reference _ s _
                          (decrypt_refused l.aes k d i mode key x v s e f g (
                            inl (
                              ap (λ n. AesJni.expand_for_decrypt l.aes n key) same
                              ∙ expand_step l.aes m key
                              ∙ refused)))
                          refl)
                      (λ ctx expanded.
                        choose-Implements _ _ (decryption l.aes m ctx x v) _ _
                          (λ refused.
                            answer reference _ s _
                              (at
                                ∙ decrypt_chained_refused l.aes m k d i key x v s e f g
                                    (ground arith) expanded refused)
                              refl)
                          (λ o done.
                            needs-Implements _ _ (length (o.0) == length x && length (o.1) == 16) _
                              λ fits.
                                answer reference _ s _
                                  (at
                                    ∙ decrypt_chained_lem l.aes m k d i key x v s e f g
                                        (ground arith) expanded done (ground arith) (ground arith)
                                        free)
                                  refl))))

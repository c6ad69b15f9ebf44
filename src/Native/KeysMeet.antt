-- ===== src/Native/KeysMeet.antt =====
-- The functions of `Secp256k1JNI` and `Ed25519JNI` and their promises.
use chain_wallet.Common.{ℕ, ◌≡◌, refl, ap, ◌∙◌, ◌&&◌, ◌==◌, Bool, none, arith, length, ltb, ◌+◌}
use chain_wallet.Jni.Machine.{Jvm, lookup}
use chain_wallet.Jni.Steps.{ready}
use chain_wallet.Jni.Valid.{Below, lookup-free}
use chain_wallet.Secp256k1
use chain_wallet.Secp256k1Jni.Digest.{sign_any-padded}
use chain_wallet.Secp256k1Jni.Laws.{create_public_key_lem, sign_long, sign_lem, sign_refused}
use chain_wallet.Secp256k1Jni.Verify.{eth_sign_lem, verify_lem, verify_long}
use chain_wallet.Ed25519Jni
use chain_wallet.Ed25519Jni.Laws.{
  ed25519_create_public_key_lem, curve25519_create_public_key_lem, ed25519_sign_lem,
  curve25519_create_shared_key_lem, ed25519_verify_lem,
}
use chain_wallet.Native.{Library, Request, reference, references, verdict, perform}
use chain_wallet.Native.Spec.{spec}
use chain_wallet.Native.Implements.{
  Meets, needs-Implements, bind-Implements, choose-Implements, if-Implements, answer,
}

module _ (l : Library) (s : Jvm) where
  pub secp256k1_create_public_key-Meets :
      (k : ℕ) (b : Bool) → Meets l s (Request.secp256k1_create_public_key k b)
  unfolding perform spec
  secp256k1_create_public_key-Meets k b = bind-Implements _ _ _ _ λ v e.
      needs-Implements _ _ _ _
        λ h. answer reference _ s _ (create_public_key_lem l.ecdsa k v b s e (ground arith)) refl

  pub secp256k1_verify-Meets : (k g m : ℕ) → Meets l s (Request.secp256k1_verify k g m)
  unfolding perform spec
  secp256k1_verify-Meets k g m = bind-Implements _ _ (lookup m s.arrays) _ λ x e.
      if-Implements _ _ (ltb 32 (length x)) _ _
        (λ h. answer verdict _ s _ (verify_long l.ecdsa k g m x s e (ground arith)) tt)
        (λ h. bind-Implements _ _ _ _ λ v f. bind-Implements _ _ _ _ λ u i.
          needs-Implements _ _ _ _ λ j.
            answer verdict _ s _
              (verify_lem l.ecdsa k g m v u x s f i e (ground arith) (ground arith) (ground arith))
              tt)

  pub ed25519_create_public_key-Meets : (k : ℕ) → Meets l s (Request.ed25519_create_public_key k)
  unfolding perform spec
  ed25519_create_public_key-Meets k = bind-Implements _ _ _ _ λ v e. needs-Implements _ _ _ _ λ h.
      answer reference _ s _ (ed25519_create_public_key_lem l.donna k v s e (ground arith)) refl

  pub curve25519_create_public_key-Meets :
      (k : ℕ) → Meets l s (Request.curve25519_create_public_key k)
  unfolding perform spec
  curve25519_create_public_key-Meets k = bind-Implements _ _ _ _ λ v e.
      needs-Implements _ _ _ _ λ h.
        answer reference _ s _ (curve25519_create_public_key_lem l.donna k v s e (ground arith))
          refl

  pub curve25519_create_shared_key-Meets :
      (k p : ℕ) → Meets l s (Request.curve25519_create_shared_key k p)
  unfolding perform spec
  curve25519_create_shared_key-Meets k p = bind-Implements _ _ _ _ λ v e.
      bind-Implements _ _ _ _ λ u f. needs-Implements _ _ _ _ λ h.
        answer reference _ s _
          (curve25519_create_shared_key_lem l.donna k p v u s e f (ground arith) (ground arith))
          refl

  module _ (below : Below s.next_ref s.arrays) where
    free : lookup s.next_ref s.arrays ≡ none
    free = lookup-free s.arrays s.next_ref s.next_ref (omega arith) below

    pub secp256k1_sign-Meets : (k m : ℕ) → Meets l s (Request.secp256k1_sign k m)
    unfolding perform spec Secp256k1.sign
    secp256k1_sign-Meets k m = bind-Implements _ _ _ _ λ v e.
        bind-Implements _ _ (lookup m s.arrays) _ λ x f.
          if-Implements _ _ (ltb 32 (length x)) _ _
            (λ h. answer reference _ s _ (sign_long l.ecdsa k m v x s e f (ground arith)) tt)
            (λ h. needs-Implements _ _ _ _ λ j.
              choose-Implements _ _ _ _ _
                (λ i.
                  answer reference _ s _
                    (sign_refused l.ecdsa k m v x s e f (ground arith) (ground arith)
                      (sign_any-padded l.ecdsa v x ∙ i))
                    tt)
                (λ g i.
                  answer reference _ s _
                    (sign_lem l.ecdsa k m v x s e f (ground arith) (ground arith) free
                      (sign_any-padded l.ecdsa v x ∙ i))
                    tt))

    pub secp256k1_eth_sign-Meets :
        (k m : ℕ) (b : Bool) → Meets l s (Request.secp256k1_eth_sign k m b)
    unfolding perform spec
    secp256k1_eth_sign-Meets k m b = bind-Implements _ _ _ _ λ v e. bind-Implements _ _ _ _ λ x f.
        bind-Implements _ _ _ _ λ g i. needs-Implements _ _ _ _ λ h.
          answer references _ s _
            (eth_sign_lem l.ecdsa k m v x s e f b (ground arith) (ground arith) free
              (lookup-free s.arrays s.next_ref (s.next_ref + 1) (omega arith) below) i)
            tt

    pub ed25519_sign-Meets : (k m n : ℕ) → Meets l s (Request.ed25519_sign k m n)
    unfolding perform spec
    ed25519_sign-Meets k m n = bind-Implements _ _ (lookup k s.arrays) _ λ v e.
        bind-Implements _ _ (lookup m s.arrays) _ λ x f.
          needs-Implements _ _ (length v == 32) _ λ h. needs-Implements _ _ (n == length x) _ λ j.
            let same : n ≡ length x = ground arith in
            answer reference _ s _
              (ap (λ i. Ed25519Jni.sign l.donna k m i (ready 0 s)) same
                ∙ ed25519_sign_lem l.donna k m v x s e f (ground arith) free)
              refl

  pub ed25519_verify-Meets : (k g m n : ℕ) → Meets l s (Request.ed25519_verify k g m n)
  unfolding perform spec
  ed25519_verify-Meets k g m n = bind-Implements _ _ (lookup k s.arrays) _ λ v e.
      bind-Implements _ _ (lookup g s.arrays) _ λ u f.
        bind-Implements _ _ (lookup m s.arrays) _ λ x i.
          needs-Implements _ _ (length v == 32 && length u == 64) _ λ h.
            needs-Implements _ _ (n == length x) _ λ j.
              let same : n ≡ length x = ground arith in
              answer verdict _ s _
                (ap (λ y. Ed25519Jni.verify l.donna k g m y (ready 0 s)) same
                  ∙ ed25519_verify_lem l.donna k g m v u x s e f i (ground arith) (ground arith))
                refl

-- ===== src/Native/HashesMeet.antt =====
-- The functions of `CryptoJNI` for hashes and their promises.
use chain_wallet.Common.{ℕ, refl}
use chain_wallet.Jni.Machine.{Jvm}
use chain_wallet.CryptoJni.DigestTable.{Algorithm, call_lem}
use chain_wallet.CryptoJni.Keyed
use chain_wallet.CryptoJni.BlakeLaws.{blake2b_lem, blake2b_refused, blake2s_lem, blake_256_lem}
use chain_wallet.CryptoJni.BlakeKeyLaws.{
  blake2b_with_key_lem, blake2b_with_key_refused, blake2s_with_key_lem, blake2s_with_key_refused,
}
use chain_wallet.CryptoJni.Ripemd.{ripemd160_leaks}
use chain_wallet.CryptoJni.KeyedLaws.{hmac_lem, pbkdf2_lem}
use chain_wallet.Native.{Library, Request, reference, perform}
use chain_wallet.Native.Spec.{spec}
use chain_wallet.Native.Implements.{Meets, bind-Implements, choose-Implements, answer}

module _ (l : Library) (s : Jvm) where
  pub hash-Meets : (a : Algorithm) (r : ℕ) → Meets l s (Request.hash a r)
  unfolding perform spec
  hash-Meets a r =
      bind-Implements _ _ _ _ λ v e. answer reference _ s _ (call_lem l.primitives a r v s e) refl

  pub ripemd160-Meets : (r : ℕ) → Meets l s (Request.ripemd160 r)
  unfolding perform spec
  ripemd160-Meets r =
      bind-Implements _ _ _ _
        λ v e. answer reference _ s _ (ripemd160_leaks l.primitives r v s e) tt

  pub blake_256-Meets : (r : ℕ) → Meets l s (Request.blake_256 r)
  unfolding perform spec
  blake_256-Meets r =
      bind-Implements _ _ _ _
        λ v e. answer reference _ s _ (blake_256_lem l.primitives r v s e) refl

  pub hmac_sha256-Meets : (k m : ℕ) → Meets l s (Request.hmac_sha256 k m)
  unfolding perform spec Keyed.hmac_sha256
  hmac_sha256-Meets k m = bind-Implements _ _ _ _ λ v e. bind-Implements _ _ _ _ λ u f.
      answer reference _ s _
        (hmac_lem 32 l.primitives.hmac_sha256 l.primitives.length-hmac_sha256 k m v u s e f) refl

  pub hmac_sha512-Meets : (k m : ℕ) → Meets l s (Request.hmac_sha512 k m)
  unfolding perform spec Keyed.hmac_sha512
  hmac_sha512-Meets k m = bind-Implements _ _ _ _ λ v e. bind-Implements _ _ _ _ λ u f.
      answer reference _ s _
        (hmac_lem 64 l.primitives.hmac_sha512 l.primitives.length-hmac_sha512 k m v u s e f) refl

  pub pbkdf2_hmac_sha256-Meets : (p t i n : ℕ) → Meets l s (Request.pbkdf2_hmac_sha256 p t i n)
  unfolding perform spec Keyed.pbkdf2_hmac_sha256
  pbkdf2_hmac_sha256-Meets p t i n = bind-Implements _ _ _ _ λ v e. bind-Implements _ _ _ _ λ u f.
      answer reference _ s _
        (pbkdf2_lem l.primitives.pbkdf2_hmac_sha256 i n
          (λ x y. l.primitives.length-pbkdf2_hmac_sha256 x y i n) p t v u s e f)
        refl

  pub pbkdf2_hmac_sha512-Meets : (p t i n : ℕ) → Meets l s (Request.pbkdf2_hmac_sha512 p t i n)
  unfolding perform spec Keyed.pbkdf2_hmac_sha512
  pbkdf2_hmac_sha512-Meets p t i n = bind-Implements _ _ _ _ λ v e. bind-Implements _ _ _ _ λ u f.
      answer reference _ s _
        (pbkdf2_lem l.primitives.pbkdf2_hmac_sha512 i n
          (λ x y. l.primitives.length-pbkdf2_hmac_sha512 x y i n) p t v u s e f)
        refl

  pub blake2b-Meets : (r n : ℕ) → Meets l s (Request.blake2b r n)
  unfolding perform spec
  blake2b-Meets r n = bind-Implements _ _ _ _ λ v e.
      choose-Implements _ _ _ _ _
        (λ h. answer reference _ s _ (blake2b_refused l.primitives r n v s e h) refl)
        (λ x h. answer reference _ s _ (blake2b_lem l.primitives r n v s e h) refl)

  pub blake2s-Meets : (r n : ℕ) → Meets l s (Request.blake2s r n)
  unfolding perform spec
  blake2s-Meets r n = bind-Implements _ _ _ _ λ v e.
      bind-Implements _ _ _ _
        λ x h. answer reference _ s _ (blake2s_lem l.primitives r n v s e h) refl

  pub blake2b_with_key-Meets : (r k n : ℕ) → Meets l s (Request.blake2b_with_key r k n)
  unfolding perform spec
  blake2b_with_key-Meets r k n = bind-Implements _ _ _ _ λ v e. bind-Implements _ _ _ _ λ u f.
      choose-Implements _ _ _ _ _
        (λ h. answer reference _ s _ (blake2b_with_key_refused l.primitives r k n v u s e f h) refl)
        (λ x h. answer reference _ s _ (blake2b_with_key_lem l.primitives r k n v u s e f h) refl)

  pub blake2s_with_key-Meets : (r k n : ℕ) → Meets l s (Request.blake2s_with_key r k n)
  unfolding perform spec
  blake2s_with_key-Meets r k n = bind-Implements _ _ _ _ λ v e. bind-Implements _ _ _ _ λ u f.
      choose-Implements _ _ _ _ _
        (λ h. answer reference _ s _ (blake2s_with_key_refused l.primitives r k n v u s e f h) refl)
        (λ x h. answer reference _ s _ (blake2s_with_key_lem l.primitives r k n v u s e f h) refl)

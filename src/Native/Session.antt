-- ===== src/Native/Session.antt =====
-- The native functions, and sequences of requests to them, against their promises.
use chain_wallet.Common.{◌≡◌, Bool, Option, some, none, List}
use chain_wallet.Common.Chain.{◌>>=◌}
use chain_wallet.Jni.Machine.{Jvm, M}
use chain_wallet.Jni.Steps.{ready}
use chain_wallet.Jni.Valid.{IsValid, Below}
use mathlib.Core.Path.{subst}
use chain_wallet.Native.{Library, Request, Reply, perform}
use chain_wallet.Native.View.{View, view}
use chain_wallet.Native.Spec.{spec}
use chain_wallet.Native.Implements.{Runs, Meets, Tidy, leaves_nothing}
use chain_wallet.Native.HashesMeet
use chain_wallet.Native.KeysMeet
use chain_wallet.Native.TextsMeet
use chain_wallet.Native.CiphersMeet

module _ (l : Library) where
  perform-Meets : (q : Request) (s : Jvm) → Below s.next_ref s.arrays → Meets l s q
  unfolding perform spec
  perform-Meets (Request.hash a r) s below = HashesMeet.hash-Meets l s a r
  perform-Meets (Request.ripemd160 r) s below = HashesMeet.ripemd160-Meets l s r
  perform-Meets (Request.blake_256 r) s below = HashesMeet.blake_256-Meets l s r
  perform-Meets (Request.hmac_sha256 k m) s below = HashesMeet.hmac_sha256-Meets l s k m
  perform-Meets (Request.hmac_sha512 k m) s below = HashesMeet.hmac_sha512-Meets l s k m
  perform-Meets (Request.pbkdf2_hmac_sha256 p t i n) s below =
      HashesMeet.pbkdf2_hmac_sha256-Meets l s p t i n
  perform-Meets (Request.pbkdf2_hmac_sha512 p t i n) s below =
      HashesMeet.pbkdf2_hmac_sha512-Meets l s p t i n
  perform-Meets (Request.blake2b r n) s below = HashesMeet.blake2b-Meets l s r n
  perform-Meets (Request.blake2s r n) s below = HashesMeet.blake2s-Meets l s r n
  perform-Meets (Request.blake2b_with_key r k n) s below =
      HashesMeet.blake2b_with_key-Meets l s r k n
  perform-Meets (Request.blake2s_with_key r k n) s below =
      HashesMeet.blake2s_with_key-Meets l s r k n
  perform-Meets (Request.str_to_hex r) s below = TextsMeet.str_to_hex-Meets l s r
  perform-Meets (Request.base58_encode r) s below = TextsMeet.base58_encode-Meets l s r
  perform-Meets (Request.base58_decode r) s below = TextsMeet.base58_decode-Meets l s r
  perform-Meets (Request.base32_encode r padding) s below =
      TextsMeet.base32_encode-Meets l s r padding
  perform-Meets (Request.base32_decode r padding) s below =
      TextsMeet.base32_decode-Meets l s r padding
  perform-Meets (Request.sig_to_der r) s below = TextsMeet.sig_to_der-Meets l s r
  perform-Meets (Request.der_to_sig r) s below = TextsMeet.der_to_sig-Meets l s r
  perform-Meets (Request.base58_encode_check r) s below = TextsMeet.base58_encode_check-Meets l s r
  perform-Meets (Request.base58_decode_check r) s below = TextsMeet.base58_decode_check-Meets l s r
  perform-Meets (Request.secp256k1_create_public_key k b) s below =
      KeysMeet.secp256k1_create_public_key-Meets l s k b
  perform-Meets (Request.secp256k1_verify k g m) s below = KeysMeet.secp256k1_verify-Meets l s k g m
  perform-Meets (Request.ed25519_create_public_key k) s below =
      KeysMeet.ed25519_create_public_key-Meets l s k
  perform-Meets (Request.curve25519_create_public_key k) s below =
      KeysMeet.curve25519_create_public_key-Meets l s k
  perform-Meets (Request.curve25519_create_shared_key k p) s below =
      KeysMeet.curve25519_create_shared_key-Meets l s k p
  perform-Meets (Request.ed25519_verify k g m n) s below = KeysMeet.ed25519_verify-Meets l s k g m n
  perform-Meets (Request.secp256k1_sign k m) s below = KeysMeet.secp256k1_sign-Meets l s below k m
  perform-Meets (Request.secp256k1_eth_sign k m b) s below =
      KeysMeet.secp256k1_eth_sign-Meets l s below k m b
  perform-Meets (Request.ed25519_sign k m n) s below = KeysMeet.ed25519_sign-Meets l s below k m n
  perform-Meets (Request.aes_encrypt k d i mode) s below =
      CiphersMeet.aes_encrypt-Meets l s below k d i mode
  perform-Meets (Request.aes_decrypt k d i mode) s below =
      CiphersMeet.aes_decrypt-Meets l s below k d i mode
  perform-Meets (Request.hex_to_str r) s below = record { runs = tt }

  promised :
      (q : Request) (s : Jvm)
      → IsValid (ready 0 s)
      → Runs (leaves_nothing q) (perform l q) s (spec l q (view s))
  unfolding ready
  promised q s v = (perform-Meets q s v.arrays_below).runs

  outcome :
      (q : Request) (s : Jvm) {reply : Reply} {w : View}
      → IsValid (ready 0 s)
      → spec l q (view s) ≡ some (reply, w)
      → (t : Jvm) × (perform l q (ready 0 s) ≡ some (reply, ready 0 t))
        × (view t ≡ w)
        × Tidy (leaves_nothing q) s t
  outcome q s v e = subst (Runs (leaves_nothing q) (perform l q) s) e (promised q s v)

  pub perform_lem :
      (q : Request) (s : Jvm) {reply : Reply} {w : View}
      → IsValid (ready 0 s)
      → spec l q (view s) ≡ some (reply, w)
      → (t : Jvm) × (perform l q (ready 0 s) ≡ some (reply, ready 0 t)) × (view t ≡ w)
  perform_lem q s v e = let (t, ran, same, tidy) = outcome q s v e in (t, ran, same)

  RunsAll : Bool → M (List Reply) → Jvm → Option (List Reply × View) → Type 0
  RunsAll b m s none = Unit
  RunsAll b m s (some (replies, w)) =
      (t : Jvm) × (m (ready 0 s) ≡ some (replies, ready 0 t))
      × (view t ≡ w)
      × IsValid (ready 0 t)
      × Tidy b s t

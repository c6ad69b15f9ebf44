-- ===== src/Native/Spec.antt =====
-- What each native function promises to the app. A request that is promised nothing has no result
-- here: a reference that is unknown, a length that the C code does not check, a call that overruns its
-- block.
use chain_wallet.Common.{
  drop, ◌/◌, not, ◌&&◌, Option, none, some, List, [], ◌∷◌, ◌++◌, length, leb, ◌==◌, if◌then◌else◌,
}
use chain_wallet.Common.Chain.{◌>>=◌}
use chain_wallet.Jni.Machine.{lookup}
use chain_wallet.CryptoJni.DigestTable.{digest}
use chain_wallet.Hexstring
use chain_wallet.Base58
use chain_wallet.Base58.Heap.{checksum}
use chain_wallet.Der
use chain_wallet.Der.{Status, accepted, rejected}
use chain_wallet.Secp256k1
use chain_wallet.Secp256k1.{Ecdsa}
use chain_wallet.AesJni.Laws.{encryption, decryption, decryption_key}
use chain_wallet.Native.{Library, Request, Reply, verdict}
use chain_wallet.Native.View.{
  View, Outcome, needs, new_array, new_string, of_array, of_arrays, of_key, or_null, are_bytes,
  has_nonzero, of_status, base32_of, decoded32, checked, signed, eth_signed, verified, ciphered_by,
}

module _ (l : Library) where
  unfoldable pub spec : Request → View → Outcome
  spec (Request.hash a r) w = of_array (digest l.primitives a) r w
  spec (Request.ripemd160 r) w = of_array l.primitives.ripemd160 r w
  spec (Request.blake_256 r) w = of_array l.primitives.blake256 r w
  spec (Request.hmac_sha256 k m) w = of_arrays l.primitives.hmac_sha256 k m w
  spec (Request.hmac_sha512 k m) w = of_arrays l.primitives.hmac_sha512 k m w
  spec (Request.pbkdf2_hmac_sha256 p t i n) w =
      of_arrays (λ v u. l.primitives.pbkdf2_hmac_sha256 v u i n) p t w
  spec (Request.pbkdf2_hmac_sha512 p t i n) w =
      of_arrays (λ v u. l.primitives.pbkdf2_hmac_sha512 v u i n) p t w
  spec (Request.blake2b r n) w = do v ← lookup r w.arrays; or_null (l.primitives.blake2b v n) w
  spec (Request.blake2s r n) w = do
    v ← lookup r w.arrays
    h ← l.primitives.blake2s v n
    new_array h w
  spec (Request.blake2b_with_key r k n) w = do
    v ← lookup r w.arrays
    u ← lookup k w.arrays
    or_null (l.primitives.blake2b_key v u n) w
  spec (Request.blake2s_with_key r k n) w = do
    v ← lookup r w.arrays
    u ← lookup k w.arrays
    or_null (l.primitives.blake2s_key v u n) w
  spec (Request.hex_to_str r) w = none
  spec (Request.str_to_hex r) w = do
    text ← lookup r w.strings
    bytes ← Hexstring.str_to_hex (text ++ 0 ∷ []) (length text / 2)
    new_array bytes w
  spec (Request.base58_encode r) w = do
    v ← lookup r w.arrays
    text ← Base58.encode v
    needs (has_nonzero v && are_bytes v) (new_string text w)
  spec (Request.base58_decode r) w = do
    text ← lookup r w.strings
    bytes ← Base58.decode text
    needs (not (length text == 0)) (new_array bytes w)
  spec (Request.base58_encode_check r) w = do
    v ← lookup r w.arrays
    text ← Base58.encode (v ++ checksum l.primitives v)
    needs (has_nonzero (v ++ checksum l.primitives v) && are_bytes v) (new_string text w)
  spec (Request.base58_decode_check r) w = do
    text ← lookup r w.strings
    bytes ← Base58.decode text
    needs (not (length text == 0) && leb 4 (length bytes)) (checked l.primitives bytes w)
  spec (Request.base32_encode r padding) w = do
    v ← lookup r w.arrays
    needs (not padding) (base32_of v w)
  spec (Request.base32_decode r padding) w = do text ← lookup r w.strings; decoded32 text w
  spec (Request.sig_to_der r) w = do
    sig ← lookup r w.arrays
    (der, n) ← Der.sig_to_der sig
    needs (length sig == 64 && has_nonzero (drop 32 sig)) (new_array der w)
  spec (Request.der_to_sig r) w = do
    der ← lookup r w.arrays
    status ← Der.der_to_sig der
    of_status status w
  spec (Request.secp256k1_create_public_key k compressed) w =
      of_key (λ key. Secp256k1.get_public l.ecdsa key (if compressed then 1 else 0)) k w
  spec (Request.secp256k1_sign k m) w = signed l.ecdsa k m w
  spec (Request.secp256k1_eth_sign k m compressed) w = eth_signed l.ecdsa k m compressed w
  spec (Request.secp256k1_verify k g m) w = verified l.ecdsa k g m w
  spec (Request.ed25519_create_public_key k) w = of_key l.donna.publickey k w
  spec (Request.curve25519_create_public_key k) w = of_key l.donna.scalarmult_basepoint k w
  spec (Request.ed25519_sign k m n) w = do
    key ← lookup k w.arrays
    message ← lookup m w.arrays
    needs (length key == 32) (needs (n == length message) (new_array (l.donna.sign message key) w))
  spec (Request.ed25519_verify k g m n) w = do
    key ← lookup k w.arrays
    sig ← lookup g w.arrays
    message ← lookup m w.arrays
    needs (length key == 32 && length sig == 64)
        (needs (n == length message) (some (verdict (l.donna.sign_open message key sig == 0), w)))
  spec (Request.curve25519_create_shared_key k p) w = do
    key ← lookup k w.arrays
    point ← lookup p w.arrays
    needs (length key == 32 && length point == 32) (new_array (l.donna.scalarmult key point) w)
  spec (Request.aes_encrypt k d i mode) w =
      ciphered_by l.aes.encrypt_key l.aes.ecb_encrypt (λ m. l.aes.encrypt_key) (encryption l.aes) k
        d i mode w
  spec (Request.aes_decrypt k d i mode) w =
      ciphered_by l.aes.decrypt_key l.aes.ecb_decrypt (decryption_key l.aes) (decryption l.aes) k d
        i mode w

  unfoldable pub spec_all : List Request → View → Option (List Reply × View)
  spec_all [] w = some ([], w)
  spec_all (q ∷ qs) w = do
    (reply, u) ← spec q w
    (replies, v) ← spec_all qs u
    some (reply ∷ replies, v)

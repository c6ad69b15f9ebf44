-- ===== src/Ed25519Jni.antt =====
-- crypto/ed25519/src/main/cpp/ed25519-wrapper.c: the functions of `Ed25519JNI` over the code of
-- native-crypto/ed25519-donna, which is a parameter. Keys are read as 32 bytes and signatures as
-- 64, whatever the lengths of their arrays are. A `jint` is a number that is not negative.
pub mod Kept
pub mod Moves
pub mod Follows
pub mod Laws
use chain_wallet.Common.{ℕ, Bool, ◌==◌, ◌≡◌, Bytes, length}
use chain_wallet.Jni.Machine.{Ptr, M, pure, ◌>>=◌, ◌>>◌}
use chain_wallet.Jni.Memory.{read}
use chain_wallet.Jni.Method.{
  copy_array_to_c, copy_array_release, critical_array_to_c, critical_array_release, return_local,
}

-- `ed25519_publickey`, `ed25519_sign` (of the message and the key), `ed25519_sign_open` (of the
-- message, the key and the signature; 0 is success) and the two products of curve25519.
pub record Donna : Type 0 where
  pub publickey : Bytes → Bytes
  pub sign : Bytes → Bytes → Bytes
  pub sign_open : Bytes → Bytes → Bytes → ℕ
  pub scalarmult_basepoint : Bytes → Bytes
  pub scalarmult : Bytes → Bytes → Bytes
  pub length-publickey : (k : Bytes) → length (publickey k) ≡ 32
  pub length-sign : (m k : Bytes) → length (sign m k) ≡ 64
  pub length-scalarmult_basepoint : (k : Bytes) → length (scalarmult_basepoint k) ≡ 32
  pub length-scalarmult : (k p : Bytes) → length (scalarmult k p) ≡ 32

module _ (e : Donna) where
  unfoldable pub create_public_key : ℕ → M Ptr
  create_public_key j_key = do
    (key, key_len) ← critical_array_to_c j_key
    k ← read key 32
    critical_array_release j_key key
    return_local 32 (e.publickey k)

  unfoldable pub sign : ℕ → ℕ → ℕ → M Ptr
  sign j_key j_message message_size = do
    (key, key_len) ← copy_array_to_c j_key
    (messages, msg_len) ← copy_array_to_c j_message
    m ← read messages message_size
    k ← read key 32
    output ← return_local 64 (e.sign m k)
    copy_array_release j_key key
    copy_array_release j_message messages
    pure output

  unfoldable pub verify : ℕ → ℕ → ℕ → ℕ → M Bool
  verify j_key j_signature j_message message_size = do
    (key, key_len) ← copy_array_to_c j_key
    (signature, sig_len) ← copy_array_to_c j_signature
    (message, msg_len) ← copy_array_to_c j_message
    m ← read message message_size
    k ← read key 32
    s ← read signature 64
    copy_array_release j_key key
    copy_array_release j_signature signature
    copy_array_release j_message message
    pure (e.sign_open m k s == 0)

  unfoldable pub curve25519_create_public_key : ℕ → M Ptr
  curve25519_create_public_key j_key = do
    (key, key_len) ← critical_array_to_c j_key
    k ← read key 32
    critical_array_release j_key key
    return_local 32 (e.scalarmult_basepoint k)

  unfoldable pub curve25519_create_shared_key : ℕ → ℕ → M Ptr
  curve25519_create_shared_key j_local j_remote = do
    (local, local_len) ← critical_array_to_c j_local
    (remote, remote_len) ← critical_array_to_c j_remote
    k ← read local 32
    p ← read remote 32
    critical_array_release j_local local
    critical_array_release j_remote remote
    return_local 32 (e.scalarmult k p)

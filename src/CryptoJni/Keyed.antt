-- ===== src/CryptoJni/Keyed.antt =====
-- The keyed wrappers of crypto-wrapper.c: HMAC and PBKDF2. A `jint` is a number that is not negative.
use chain_wallet.Common.{ℕ, ◌||◌, true, false, none, some, Bool, Bytes, if◌then◌else◌}
use chain_wallet.Jni.Machine.{Ptr, M, pure, ◌>>=◌, ◌>>◌}
use chain_wallet.Jni.Memory.{calloc, free, read, write}
use chain_wallet.Jni.Calls.{new_byte_array, set_byte_array_region}
use chain_wallet.Jni.Method.{
  copy_array_to_c, copy_array_release, critical_array_to_c, critical_array_release,
}
use chain_wallet.Primitives.{Primitives}
use chain_wallet.CryptoJni.Digests.{return_bytes}

-- The text of both HMAC wrappers. The length of the second array is asked for while the first is
-- held critically.
unfoldable pub hmac : ℕ → (Bytes → Bytes → Bytes) → ℕ → ℕ → M Ptr
hmac n f j_key j_message = do
  digest ← calloc n
  elim digest [
    | none ↦ pure none
    | some d ↦ do
      (key, key_size) ← critical_array_to_c j_key
      (message, message_size) ← critical_array_to_c j_message
      k ← read key key_size
      m ← read message message_size
      write (some d) (f k m)
      critical_array_release j_key key
      critical_array_release j_message message
      return_bytes n (some d)
  ]

abbrev is_null : Ptr → Bool
is_null none = true
is_null (some a) = false

-- What follows the test that both arrays were given.
unfoldable pub derive : (Bytes → Bytes → ℕ → ℕ → Bytes) → ℕ → ℕ → ℕ → ℕ → Ptr → ℕ → Ptr → ℕ → M Ptr
derive f pass_array salt_array iterations byte_count pass pass_size salt salt_size = do
  output ← calloc byte_count
  elim output [
    | none ↦ do copy_array_release pass_array pass; copy_array_release salt_array salt; pure none
    | some d ↦ do
      p ← read pass pass_size
      s ← read salt salt_size
      write (some d) (f p s iterations byte_count)
      copy_array_release pass_array pass
      copy_array_release salt_array salt
      result ← new_byte_array byte_count
      elim result [
        | none ↦ do free (some d); pure none
        | some r ↦ do
          set_byte_array_region (some r) byte_count (some d)
          free (some d)
          pure (some r)
      ]
  ]

-- The text of both PBKDF2 wrappers.
unfoldable pub pbkdf2 : (Bytes → Bytes → ℕ → ℕ → Bytes) → ℕ → ℕ → ℕ → ℕ → M Ptr
pbkdf2 f pass_array salt_array iterations byte_count = do
  (pass, pass_size) ← copy_array_to_c pass_array
  (salt, salt_size) ← copy_array_to_c salt_array
  if is_null pass || is_null salt
      then pure none
      else derive f pass_array salt_array iterations byte_count pass pass_size salt salt_size

module _ (c : Primitives) where
  unfoldable pub hmac_sha256 : ℕ → ℕ → M Ptr
  hmac_sha256 = hmac 32 c.hmac_sha256

  unfoldable pub hmac_sha512 : ℕ → ℕ → M Ptr
  hmac_sha512 = hmac 64 c.hmac_sha512

  unfoldable pub pbkdf2_hmac_sha256 : ℕ → ℕ → ℕ → ℕ → M Ptr
  pbkdf2_hmac_sha256 = pbkdf2 c.pbkdf2_hmac_sha256

  unfoldable pub pbkdf2_hmac_sha512 : ℕ → ℕ → ℕ → ℕ → M Ptr
  pbkdf2_hmac_sha512 = pbkdf2 c.pbkdf2_hmac_sha512

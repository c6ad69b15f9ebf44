-- ===== src/CryptoJni/Digests.antt =====
-- The digest wrappers of crypto-wrapper.c. Their bodies are copies of four texts, which differ in
-- how the input is taken over and in whether the digest is digested again.
use chain_wallet.Common.{ℕ, none, some, Bytes}
use chain_wallet.Jni.Machine.{Ptr, M, pure, ◌>>=◌, ◌>>◌}
use chain_wallet.Jni.Memory.{calloc, free, read, write}
use chain_wallet.Jni.Calls.{new_byte_array, set_byte_array_region}
use chain_wallet.Jni.Method.{
  copy_array_to_c, copy_array_release, critical_array_to_c, critical_array_release,
}
use chain_wallet.Primitives.{Primitives}

-- The end of each wrapper: the result is copied into a new array, and the block is freed.
unfoldable pub return_bytes : ℕ → Ptr → M Ptr
return_bytes n digest = do
  result ← new_byte_array n
  set_byte_array_region result n digest
  free digest
  pure result

unfoldable pub copy_digest : ℕ → (Bytes → Bytes) → ℕ → M Ptr
copy_digest n f j_date = do
  digest ← calloc n
  elim digest [
    | none ↦ pure none
    | some d ↦ do
      (date, data_size) ← copy_array_to_c j_date
      message ← read date data_size
      write (some d) (f message)
      copy_array_release j_date date
      return_bytes n (some d)
  ]

unfoldable pub critical_digest : ℕ → (Bytes → Bytes) → ℕ → M Ptr
critical_digest n f j_date = do
  digest ← calloc n
  elim digest [
    | none ↦ pure none
    | some d ↦ do
      (date, data_size) ← critical_array_to_c j_date
      message ← read date data_size
      write (some d) (f message)
      critical_array_release j_date date
      return_bytes n (some d)
  ]

-- The second call reads and writes the same block.
unfoldable pub copy_double_digest : ℕ → (Bytes → Bytes) → ℕ → M Ptr
copy_double_digest n f j_date = do
  digest ← calloc n
  elim digest [
    | none ↦ pure none
    | some d ↦ do
      (date, data_size) ← copy_array_to_c j_date
      message ← read date data_size
      write (some d) (f message)
      first ← read (some d) n
      write (some d) (f first)
      copy_array_release j_date date
      return_bytes n (some d)
  ]

unfoldable pub critical_double_digest : ℕ → (Bytes → Bytes) → ℕ → M Ptr
critical_double_digest n f j_date = do
  digest ← calloc n
  elim digest [
    | none ↦ pure none
    | some d ↦ do
      (date, data_size) ← critical_array_to_c j_date
      message ← read date data_size
      write (some d) (f message)
      first ← read (some d) n
      write (some d) (f first)
      critical_array_release j_date date
      return_bytes n (some d)
  ]

-- What stands in for the end of a wrapper that never frees the block of its result.
unfoldable pub leak_bytes : ℕ → Ptr → M Ptr
leak_bytes n output = do
  result ← new_byte_array n
  set_byte_array_region result n output
  pure result

module _ (c : Primitives) where
  unfoldable pub sha256 : ℕ → M Ptr
  sha256 = copy_digest 32 c.sha256

  unfoldable pub sha512 : ℕ → M Ptr
  sha512 = copy_digest 64 c.sha512

  unfoldable pub double_sha256 : ℕ → M Ptr
  double_sha256 = copy_double_digest 32 c.sha256

  -- No test of `calloc`'s result, and no `free` of it.
  unfoldable pub ripemd160 : ℕ → M Ptr
  ripemd160 j_date = do
    (message, data_size) ← copy_array_to_c j_date
    output ← calloc 20
    m ← read message data_size
    write output (c.ripemd160 m)
    copy_array_release j_date message
    leak_bytes 20 output

  unfoldable pub sha3_224 : ℕ → M Ptr
  sha3_224 = critical_digest 28 c.sha3_224

  unfoldable pub sha3_256 : ℕ → M Ptr
  sha3_256 = critical_digest 32 c.sha3_256

  unfoldable pub sha3_384 : ℕ → M Ptr
  sha3_384 = critical_digest 48 c.sha3_384

  unfoldable pub sha3_512 : ℕ → M Ptr
  sha3_512 = critical_digest 64 c.sha3_512

  unfoldable pub double_sha3_256 : ℕ → M Ptr
  double_sha3_256 = critical_double_digest 32 c.sha3_256

  unfoldable pub keccak_224 : ℕ → M Ptr
  keccak_224 = critical_digest 28 c.keccak_224

  unfoldable pub keccak_256 : ℕ → M Ptr
  keccak_256 = critical_digest 32 c.keccak_256

  unfoldable pub keccak_384 : ℕ → M Ptr
  keccak_384 = critical_digest 48 c.keccak_384

  unfoldable pub keccak_512 : ℕ → M Ptr
  keccak_512 = critical_digest 64 c.keccak_512

  unfoldable pub double_keccak_256 : ℕ → M Ptr
  double_keccak_256 = critical_double_digest 32 c.keccak_256

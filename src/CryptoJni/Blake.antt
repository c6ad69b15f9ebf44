-- ===== src/CryptoJni/Blake.antt =====
-- The BLAKE wrappers of crypto-wrapper.c. A `jint` length is a number that is not negative.
use chain_wallet.Common.{ℕ, Option, none, some, Bytes}
use chain_wallet.Jni.Machine.{Ptr, M, pure, ◌>>=◌, ◌>>◌}
use chain_wallet.Jni.Memory.{calloc, free, read, write}
use chain_wallet.Jni.Calls.{new_byte_array, set_byte_array_region}
use chain_wallet.Jni.Method.{copy_array_release, critical_array_to_c, critical_array_release}
use chain_wallet.Primitives.{Primitives}

-- The end of these wrappers: where no array is given the block stays behind.
unfoldable pub checked_bytes : ℕ → Ptr → M Ptr
checked_bytes n output = do
  result ← new_byte_array n
  elim result [
    | none ↦ pure none
    | some r ↦ do set_byte_array_region (some r) n output; free output; pure (some r)
  ]

-- The status of a BLAKE2 function with this place for its result: -1 for NULL too.
abbrev pub given : Ptr → Option Bytes → Option Bytes
given none hash = none
given (some o) hash = hash

module _ (c : Primitives) where
  unfoldable pub blake2b : ℕ → ℕ → M Ptr
  blake2b j_input outlen = do
    (input, input_len) ← critical_array_to_c j_input
    output ← calloc outlen
    m ← read input input_len
    elim (given output (c.blake2b m outlen)) [
      | none ↦ do critical_array_release j_input input; free output; pure none
      | some hash ↦ do
        write output hash
        critical_array_release j_input input
        checked_bytes outlen output
    ]

  unfoldable pub blake2b_with_key : ℕ → ℕ → ℕ → M Ptr
  blake2b_with_key j_input j_key outlen = do
    (input, input_len) ← critical_array_to_c j_input
    (key, key_len) ← critical_array_to_c j_key
    output ← calloc outlen
    m ← read input input_len
    k ← read key key_len
    elim (given output (c.blake2b_key m k outlen)) [
      | none ↦ do
        critical_array_release j_input input
        critical_array_release j_key key
        free output
        pure none
      | some hash ↦ do
        write output hash
        critical_array_release j_input input
        critical_array_release j_key key
        checked_bytes outlen output
    ]

  -- The error path gives the critical elements back as if they were a copy.
  unfoldable pub blake2s : ℕ → ℕ → M Ptr
  blake2s j_input outlen = do
    (input, input_len) ← critical_array_to_c j_input
    output ← calloc outlen
    m ← read input input_len
    elim (given output (c.blake2s m outlen)) [
      | none ↦ do copy_array_release j_input input; free output; pure none
      | some hash ↦ do
        write output hash
        critical_array_release j_input input
        checked_bytes outlen output
    ]

  unfoldable pub blake2s_with_key : ℕ → ℕ → ℕ → M Ptr
  blake2s_with_key j_input j_key outlen = do
    (input, input_len) ← critical_array_to_c j_input
    (key, key_len) ← critical_array_to_c j_key
    output ← calloc outlen
    m ← read input input_len
    k ← read key key_len
    elim (given output (c.blake2s_key m k outlen)) [
      | none ↦ do
        critical_array_release j_input input
        critical_array_release j_key key
        free output
        pure none
      | some hash ↦ do
        write output hash
        critical_array_release j_input input
        critical_array_release j_key key
        checked_bytes outlen output
    ]

  unfoldable pub blake_256 : ℕ → M Ptr
  blake_256 j_input = do
    (input, input_len) ← critical_array_to_c j_input
    output ← calloc 32
    m ← read input input_len
    write output (c.blake256 m)
    critical_array_release j_input input
    checked_bytes 32 output

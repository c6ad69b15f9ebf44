-- ===== src/Jni/Method.antt =====
-- native-crypto/jni_method.c: how the wrappers take arrays over and give them back.
use chain_wallet.Common.{ℕ, ◌+◌, Bytes}
use chain_wallet.Jni.Machine.{Ptr, M, pure, ◌>>=◌, ◌>>◌}
use chain_wallet.Jni.Memory.{free, malloc, write}
use chain_wallet.Jni.Calls.{
  get_array_length, get_byte_array_region, get_byte_array_elements, get_primitive_array_critical,
  release_byte_array_elements, release_primitive_array_critical, new_byte_array,
  set_byte_array_region, set_local_region,
}

-- `GetByteArrayRegion` copies the whole array into the block, which is one byte longer.
unfoldable pub final_array_to_c : ℕ → M (Ptr × ℕ)
final_array_to_c array = do
  len ← get_array_length array
  buf ← malloc (len + 1)
  v ← get_byte_array_region array
  write buf v
  pure (buf, len)

unfoldable pub final_array_release : Ptr → M (Unit {0})
final_array_release buf = free buf

unfoldable pub copy_array_to_c : ℕ → M (Ptr × ℕ)
copy_array_to_c array = do
  len ← get_array_length array
  buf ← get_byte_array_elements array
  pure (buf, len)

unfoldable pub copy_array_release : ℕ → Ptr → M (Unit {0})
copy_array_release array buf = release_byte_array_elements array buf

unfoldable pub critical_array_to_c : ℕ → M (Ptr × ℕ)
critical_array_to_c array = do
  len ← get_array_length array
  buf ← get_primitive_array_critical array
  pure (buf, len)

unfoldable pub critical_array_release : ℕ → Ptr → M (Unit {0})
critical_array_release array buf = release_primitive_array_critical array buf

unfoldable pub as_byte_array : Ptr → ℕ → M Ptr
as_byte_array buf len = do
  array ← new_byte_array len
  set_byte_array_region array len buf
  pure array

-- `as_byte_array` of a buffer on the C stack: a new array with its bytes.
unfoldable pub return_local : ℕ → Bytes → M Ptr
return_local n bytes = do output ← new_byte_array n; set_local_region output bytes; pure output

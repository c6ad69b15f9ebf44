-- ===== src/Jni/KeptMethod.antt =====
-- The functions of native-crypto/jni_method.c keep the machine valid, and the rules by which the
-- wrappers do.
use chain_wallet.Common.{ℕ, Bytes}
use chain_wallet.Jni.Machine.{Ptr}
use chain_wallet.Jni.Keeps.{
  Keeps, Keeps-pure, Keeps-fault, Keeps-lift, Keeps-if, Keeps-bind, Keeps-ptr, Keeps-option,
}
use chain_wallet.Jni.KeptHeap.{calloc-Keeps, malloc-Keeps, free-Keeps, read-Keeps, write-Keeps}
use chain_wallet.Jni.KeptElements.{
  get_array_length-Keeps, get_byte_array_region-Keeps, get_byte_array_elements-Keeps,
  get_primitive_array_critical-Keeps, release_byte_array_elements-Keeps,
  release_primitive_array_critical-Keeps,
}
use chain_wallet.Jni.KeptArrays.{
  new_byte_array-Keeps, set_byte_array_region-Keeps, set_local_region-Keeps, new_string_utf-Keeps,
  get_string_utf_chars-Keeps, get_string_utf_length-Keeps, get_object_class-Keeps,
  new_object_array-Keeps, set_object_array_element-Keeps,
}
use chain_wallet.Jni.Method.{
  final_array_to_c, final_array_release, copy_array_to_c, copy_array_release, critical_array_to_c,
  critical_array_release, as_byte_array, return_local,
}

pub ruleset call_rules = (
  Keeps-pure, Keeps-fault, Keeps-lift, Keeps-if, Keeps-bind, Keeps-ptr, Keeps-option, calloc-Keeps,
  malloc-Keeps, free-Keeps, read-Keeps, write-Keeps, get_array_length-Keeps,
  get_byte_array_region-Keeps, get_byte_array_elements-Keeps, get_primitive_array_critical-Keeps,
  release_byte_array_elements-Keeps, release_primitive_array_critical-Keeps, new_byte_array-Keeps,
  set_byte_array_region-Keeps, set_local_region-Keeps, new_string_utf-Keeps,
  get_string_utf_chars-Keeps, get_string_utf_length-Keeps, get_object_class-Keeps,
  new_object_array-Keeps, set_object_array_element-Keeps,
)

pub final_array_to_c-Keeps : (r : ℕ) → Keeps (final_array_to_c r)
unfolding final_array_to_c
final_array_to_c-Keeps r = search call_rules

pub final_array_release-Keeps : (p : Ptr) → Keeps (final_array_release p)
unfolding final_array_release
final_array_release-Keeps p = free-Keeps p

pub copy_array_to_c-Keeps : (r : ℕ) → Keeps (copy_array_to_c r)
unfolding copy_array_to_c
copy_array_to_c-Keeps r = search call_rules

pub copy_array_release-Keeps : (r : ℕ) (p : Ptr) → Keeps (copy_array_release r p)
unfolding copy_array_release
copy_array_release-Keeps r p = release_byte_array_elements-Keeps r p

pub critical_array_to_c-Keeps : (r : ℕ) → Keeps (critical_array_to_c r)
unfolding critical_array_to_c
critical_array_to_c-Keeps r = search call_rules

pub critical_array_release-Keeps : (r : ℕ) (p : Ptr) → Keeps (critical_array_release r p)
unfolding critical_array_release
critical_array_release-Keeps r p = release_primitive_array_critical-Keeps r p

pub as_byte_array-Keeps : (p : Ptr) (n : ℕ) → Keeps (as_byte_array p n)
unfolding as_byte_array
as_byte_array-Keeps p n = search call_rules

pub return_local-Keeps : (n : ℕ) (v : Bytes) → Keeps (return_local n v)
unfolding return_local
return_local-Keeps n v = search call_rules

pub ruleset keeps_rules = (
  call_rules, copy_array_to_c-Keeps, copy_array_release-Keeps, critical_array_to_c-Keeps,
  critical_array_release-Keeps, return_local-Keeps,
)

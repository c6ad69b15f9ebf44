-- ===== src/Jni/FollowsMethod.antt =====
-- The functions of native-crypto/jni_method.c under refused memory, and the rules by which the
-- wrappers are followed.
use chain_wallet.Common.{ℕ, Option, none, Bytes, refl}
use chain_wallet.Jni.Machine.{M, Ptr, pure, ◌>>=◌}
use chain_wallet.Jni.Follows.{
  Follows, Ends, Never, IsMissing, IsMissingOf, Follows-pure, Follows-fault, Follows-lift,
  Follows-if, Follows-bind, Follows-ptr, Follows-array, Follows-option, Ends-fault, Ends-pure,
  Ends-if, Ends-ptr, Ends-bind, Ends-option,
}
use chain_wallet.Jni.FollowsCalls.{
  calloc-Follows, malloc-Follows, free-Follows, read-Follows, write-Follows,
  get_array_length-Follows, get_byte_array_region-Follows, get_byte_array_elements-Follows,
  get_primitive_array_critical-Follows, release_byte_array_elements-Follows,
  release_primitive_array_critical-Follows, new_byte_array-Follows, set_byte_array_region-Follows,
  set_local_region-Follows, new_string_utf-Follows, get_string_utf_chars-Follows,
  get_string_utf_length-Follows, get_object_class-Follows, new_object_array-Follows,
  set_object_array_element-Follows,
}
use chain_wallet.Jni.EndsCalls.{
  read-Ends, write-Ends, release_byte_array_elements-Ends, release_primitive_array_critical-Ends,
  set_byte_array_region-Ends, set_local_region-Ends, set_from_missing-Ends, get_object_class-Ends,
  set_object_array_element-Ends,
}
use chain_wallet.Jni.Method.{
  copy_array_to_c, copy_array_release, critical_array_to_c, critical_array_release, return_local,
}

pub IsMissing-Ends : {A : Type 0} → Ends IsMissing (pure {A = Option A} none)
IsMissing-Ends = Ends-pure none record { is_none = refl }

pub IsMissingOf-Ends : {A B : Type 0} (b : B) → Ends IsMissingOf (pure {A = Option A × B} (none, b))
IsMissingOf-Ends b = Ends-pure (none, b) record { is_none = refl }

pub ruleset call_follows = (
  IsMissing-Ends, IsMissingOf-Ends, Follows-pure, Follows-fault, Follows-lift, Follows-if,
  Follows-array, Follows-ptr, Follows-bind, Follows-option, Ends-fault, Ends-if, read-Ends,
  write-Ends, release_byte_array_elements-Ends, release_primitive_array_critical-Ends,
  set_byte_array_region-Ends, set_local_region-Ends, set_from_missing-Ends, get_object_class-Ends,
  set_object_array_element-Ends, Ends-bind, Ends-ptr, Ends-option, calloc-Follows, malloc-Follows,
  free-Follows, read-Follows, write-Follows, get_array_length-Follows,
  get_byte_array_region-Follows, get_byte_array_elements-Follows,
  get_primitive_array_critical-Follows, release_byte_array_elements-Follows,
  release_primitive_array_critical-Follows, new_byte_array-Follows, set_byte_array_region-Follows,
  set_local_region-Follows, new_string_utf-Follows, get_string_utf_chars-Follows,
  get_string_utf_length-Follows, get_object_class-Follows, new_object_array-Follows,
  set_object_array_element-Follows,
)

pub copy_array_to_c-Follows : (r : ℕ) → Follows IsMissingOf (copy_array_to_c r)
unfolding copy_array_to_c
copy_array_to_c-Follows r = search call_follows

pub critical_array_to_c-Follows : (r : ℕ) → Follows IsMissingOf (critical_array_to_c r)
unfolding critical_array_to_c
critical_array_to_c-Follows r = search call_follows

module _ {P : Unit {0} → Type 0} where
  pub copy_array_release-Follows : (r : ℕ) (p : Ptr) → Follows P (copy_array_release r p)
  unfolding copy_array_release
  copy_array_release-Follows r p = release_byte_array_elements-Follows r p

  pub critical_array_release-Follows : (r : ℕ) (p : Ptr) → Follows P (critical_array_release r p)
  unfolding critical_array_release
  critical_array_release-Follows r p = release_primitive_array_critical-Follows r p

module _ {A : Type 0} {P : A → Type 0} (f : Unit {0} → M A) where
  pub copy_array_release-Ends : (r : ℕ) → Ends P (copy_array_release r none >>= f)
  unfolding copy_array_release
  copy_array_release-Ends r = release_byte_array_elements-Ends f r

  pub critical_array_release-Ends : (r : ℕ) → Ends P (critical_array_release r none >>= f)
  unfolding critical_array_release
  critical_array_release-Ends r = release_primitive_array_critical-Ends f r

-- An array that is refused is not written to unseen: the copy is a fault.
pub return_local-Follows : {P : Ptr → Type 0} (n : ℕ) (v : Bytes) → Follows P (return_local n v)
unfolding return_local
return_local-Follows n v = search call_follows

pub ruleset follows_rules = (
  copy_array_to_c-Follows, critical_array_to_c-Follows, copy_array_release-Follows,
  critical_array_release-Follows, copy_array_release-Ends, critical_array_release-Ends,
  return_local-Follows, call_follows,
)

-- ===== src/Jni/Objects.antt =====
-- The JNI calls for an array of two objects, which is a value here: it takes no reference of its own,
-- and a call that stores an element gives the array as it is then.
use chain_wallet.Common.{ℕ, zero, suc, Option, none, some, if◌then◌else◌}
use chain_wallet.Jni.Machine.{Ptr, M}
use chain_wallet.Jni.Memory.{denied, later}
use chain_wallet.Jni.Calls.{entered}

-- NULL has no class.
unfoldable pub get_object_class : Ptr → M (Unit {0})
get_object_class none s = none
get_object_class (some r) s = some (tt, entered s)

-- `NewObjectArray(2, clazz, NULL)`, which is NULL if the request is refused.
unfoldable pub new_object_array : M (Option (Ptr × Ptr))
new_object_array s =
    if denied s.denials
    then some (none, record (entered s) { denials = later s.denials })
    else some (some (none, none), record (entered s) { denials = later s.denials })

-- `SetObjectArrayElement(array, i, p)`
unfoldable pub set_object_array_element : Option (Ptr × Ptr) → ℕ → Ptr → M (Ptr × Ptr)
set_object_array_element none i p s = none
set_object_array_element (some (x, y)) zero p s = some ((p, y), entered s)
set_object_array_element (some (x, y)) (suc zero) p s = some ((x, p), entered s)
set_object_array_element (some (x, y)) (suc (suc i)) p s = none

-- ===== src/Jni/Calls.antt =====
-- The functions of the JNI environment that the wrappers call.
use chain_wallet.Common.{
  ℕ, zero, suc, ◌+◌, ◌-◌, Option, none, some, [], ◌∷◌, Bytes, length, replicate, take, leb, ◌==◌,
  if◌then◌else◌,
}
use chain_wallet.Jni.Machine.{
  elements, critical, Ptr, Jvm, M, lookup, update, find_block, remove_block, is_elements,
  is_critical,
}
use chain_wallet.Jni.Memory.{denied, later, obtain, overwrite}

abbrev pub unsafe_after : ℕ → ℕ → ℕ
unsafe_after zero n = n
unsafe_after (suc d) n = n + 1

-- Every call but the two of a critical region is counted if such a region is open.
abbrev pub entered : Jvm → Jvm
entered s = record s { unsafe_calls = unsafe_after s.open_regions s.unsafe_calls }

unfoldable pub get_array_length : ℕ → M ℕ
get_array_length r s = elim (lookup r s.arrays) [
  | none ↦ none
  | some v ↦ some (length v, entered s)
]

-- `GetByteArrayRegion` of the whole array.
unfoldable pub get_byte_array_region : ℕ → M Bytes
get_byte_array_region r s = elim (lookup r s.arrays) [ none ↦ none | some v ↦ some (v, entered s) ]

unfoldable pub get_byte_array_elements : ℕ → M Ptr
get_byte_array_elements r s = elim (lookup r s.arrays) [
  | none ↦ none
  | some v ↦ obtain (elements r) v (entered s)
]

abbrev pub opened : Option (Ptr × Jvm) → Option (Ptr × Jvm)
opened none = none
opened (some (none, s)) = some (none, s)
opened (some (some a, s)) = some (some a, record s { open_regions = s.open_regions + 1 })

-- Opens a critical region, if memory is given.
unfoldable pub get_primitive_array_critical : ℕ → M Ptr
get_primitive_array_critical r s = elim (lookup r s.arrays) [
  | none ↦ none
  | some v ↦ opened (obtain (critical r) v s)
]

-- The content of a block goes back into its array, and the block is given up.
abbrev pub put_back : ℕ → ℕ → Bytes → Jvm → Jvm
put_back r a v s = record s { arrays = update r v s.arrays; blocks = remove_block a s.blocks }

-- `ReleaseByteArrayElements` in mode 0.
unfoldable pub release_byte_array_elements : ℕ → Ptr → M (Unit {0})
release_byte_array_elements r none s = none
release_byte_array_elements r (some a) s = elim (find_block a s.blocks) [
  | none ↦ none
  | some b ↦ if is_elements r b.kind then some (tt, put_back r a b.bytes (entered s)) else none
]

-- `ReleasePrimitiveArrayCritical` in mode 0; it closes a critical region.
unfoldable pub release_primitive_array_critical : ℕ → Ptr → M (Unit {0})
release_primitive_array_critical r none s = none
release_primitive_array_critical r (some a) s = elim (find_block a s.blocks) [
  | none ↦ none
  | some b ↦
      if is_critical r b.kind
      then some (tt, put_back r a b.bytes (record s { open_regions = s.open_regions - 1 }))
      else none
]

abbrev pub push_array : Bytes → Jvm → Jvm
push_array v s = record s {
  arrays = (s.next_ref, v) ∷ s.arrays;
  next_ref = s.next_ref + 1;
  denials = later s.denials;
}

-- NULL if the request is refused; then an exception is pending.
unfoldable pub new_byte_array : ℕ → M Ptr
new_byte_array n s =
    if denied s.denials
    then some (none, record (entered s) { denials = later s.denials })
    else some (some s.next_ref, push_array (replicate n 0) (entered s))

-- The first `n` bytes of `v` over the start of `old`, where both are that long.
abbrev pub region : ℕ → Bytes → Bytes → Option Bytes
region n v old =
    if leb n (length v)
    then if leb n (length old) then some (overwrite (take n v) old) else none
    else none

-- `SetByteArrayRegion(array, 0, n, p)`
unfoldable pub set_byte_array_region : Ptr → ℕ → Ptr → M (Unit {0})
set_byte_array_region none n p s = none
set_byte_array_region (some r) n none s = none
set_byte_array_region (some r) n (some a) s = elim (find_block a s.blocks) [
  | none ↦ none
  | some b ↦ elim (lookup r s.arrays) [
    | none ↦ none
    | some old ↦ elim (region n b.bytes old) [
      | none ↦ none
      | some v ↦ some (tt, record (entered s) { arrays = update r v s.arrays })
    ]
  ]
]

-- The C string at the start of a block: what stands before its first NUL, which must be there.
abbrev pub c_string : Bytes → Option Bytes
c_string [] = none
c_string (b ∷ bs) =
    if b == 0 then some [] else elim (c_string bs) [ none ↦ none | some t ↦ some (b ∷ t) ]

abbrev pub push_string : Bytes → Jvm → Jvm
push_string t s = record s {
  strings = (s.next_ref, t) ∷ s.strings;
  next_ref = s.next_ref + 1;
  denials = later s.denials;
}

-- `NewStringUTF(p)`, which gives NULL for NULL and where the request is refused.
unfoldable pub new_string_utf : Ptr → M Ptr
new_string_utf none s = some (none, entered s)
new_string_utf (some a) s = elim (find_block a s.blocks) [
  | none ↦ none
  | some b ↦ elim (c_string b.bytes) [
    | none ↦ none
    | some t ↦
        if denied s.denials
        then some (none, record (entered s) { denials = later s.denials })
        else some (some s.next_ref, push_string t (entered s))
  ]
]

-- `GetStringUTFChars` and `GetStringUTFLength`: the bytes of a string are read and never written,
-- so the characters are the string's own; their release changes nothing. A request for them that is
-- refused gives a NULL, which every wrapper hands on to their release: a fault.
unfoldable pub get_string_utf_chars : ℕ → M Bytes
get_string_utf_chars r s = elim (lookup r s.strings) [
  | none ↦ none
  | some t ↦
      if denied s.denials then none else some (t, record (entered s) { denials = later s.denials })
]

unfoldable pub get_string_utf_length : ℕ → M ℕ
get_string_utf_length r s = elim (lookup r s.strings) [
  | none ↦ none
  | some t ↦ some (length t, entered s)
]

-- `SetByteArrayRegion(array, 0, length v, v)` from an array `v` on the C stack.
unfoldable pub set_local_region : Ptr → Bytes → M (Unit {0})
set_local_region none v s = none
set_local_region (some r) v s = elim (lookup r s.arrays) [
  | none ↦ none
  | some old ↦ elim (region (length v) v old) [
    | none ↦ none
    | some w ↦ some (tt, record (entered s) { arrays = update r w s.arrays })
  ]
]

-- ===== src/Jni/KeptArrays.antt =====
-- Each call of JNI that makes or fills an array or a string keeps the machine valid.
use chain_wallet.Common.{
  ℕ, zero, suc, Option, ◌≡◌, ap, ◌∙◌, sym, none, some, Bytes, length, take, leb, arith, Bool-cases,
  Option-cases, inl, inr, replicate, leb→le, length-take,
}
use chain_wallet.Jni.Machine.{Jvm, Ptr, lookup, update, find_block}
use chain_wallet.Jni.Memory.{denied, later, overwrite}
use chain_wallet.Jni.Valid.{IsValid, size_of-lookup, length-overwrite}
use chain_wallet.Jni.Calls.{
  new_byte_array, region, set_byte_array_region, set_local_region, c_string, new_string_utf,
  get_string_utf_chars, get_string_utf_length,
}
use chain_wallet.Jni.Objects.{get_object_class, new_object_array, set_object_array_element}
use chain_wallet.Jni.Keeps.{Ensures, Good, Keeps}
use chain_wallet.Jni.Changes.{bookkeeping-Good, update-Good, push_array-Good, push_string-Good}

new_array_at : (n : ℕ) (s : Jvm) → IsValid s → Ensures (Good s) (new_byte_array n s)
unfolding new_byte_array
new_array_at n s v = elim (Bool-cases (denied s.denials)) [
  | inl d ↦ rw (d, Ensures) (bookkeeping-Good s v (later s.denials) _)
  | inr d ↦ rw (d, Ensures) (push_array-Good s v (replicate n 0) (later s.denials) _)
]

pub new_byte_array-Keeps : (n : ℕ) → Keeps (new_byte_array n)
new_byte_array-Keeps n = record { at = new_array_at n }

-- A region that is set is as long as what it replaces.
length-region : (n : ℕ) (v old w : Bytes) → region n v old ≡ some w → length w ≡ length old
length-region n v old w h = elim (Bool-cases (leb n (length v))) [
  | inl a ↦ elim (Bool-cases (leb n (length old))) [
    | inl b ↦
        let e : overwrite (take n v) old ≡ w = ground arith in
        rw (← e) (length-overwrite (take n v) old (omega (arith, length-take n v, leb→le n _ b)))
    | inr b ↦ cc
  ]
  | inr a ↦ cc
]

module _ (r : ℕ) (s : Jvm) (v : IsValid s) where
  set_Good :
      (old w : Bytes) (u : ℕ)
      → lookup r s.arrays ≡ some old
      → length w ≡ length old
      → Good s (record s { arrays = update r w s.arrays; unsafe_calls = u })
  set_Good old w u e same =
      update-Good s v r w s.blocks s.open_regions u
        (size_of-lookup s.arrays r old e ∙ ap some (sym same)) v.blocks_below v.regions v.fits

  set_region_at : (n a : ℕ) → Ensures (Good s) (set_byte_array_region (some r) n (some a) s)
  unfolding set_byte_array_region
  set_region_at n a = elim (Option-cases (find_block a s.blocks)) [
    | inl e ↦ rw (e, Ensures) tt
    | inr (b, e) ↦ elim (Option-cases (lookup r s.arrays)) [
      | inl h ↦ rw (e, h, Ensures) tt
      | inr (old, h) ↦ elim (Option-cases (region n b.bytes old)) [
        | inl k ↦ rw (e, h, Ensures) (rw (k, Ensures) tt)
        | inr (w, k) ↦
            rw (e, h, Ensures)
              (rw (k, Ensures) (set_Good old w _ h (length-region n b.bytes old w k)))
      ]
    ]
  ]

  set_local_at : (x : Bytes) → Ensures (Good s) (set_local_region (some r) x s)
  unfolding set_local_region
  set_local_at x = elim (Option-cases (lookup r s.arrays)) [
    | inl h ↦ rw (h, Ensures) tt
    | inr (old, h) ↦ elim (Option-cases (region (length x) x old)) [
      | inl k ↦ rw (h, Ensures) (rw (k, Ensures) tt)
      | inr (w, k) ↦
          rw (h, Ensures)
            (rw (k, Ensures) (set_Good old w _ h (length-region (length x) x old w k)))
    ]
  ]

pub set_byte_array_region-Keeps : (p : Ptr) (n : ℕ) (q : Ptr) → Keeps (set_byte_array_region p n q)
unfolding set_byte_array_region
set_byte_array_region-Keeps none n q = record { at = λ s v. tt }
set_byte_array_region-Keeps (some r) n none = record { at = λ s v. tt }
set_byte_array_region-Keeps (some r) n (some a) = record { at = λ s v. set_region_at r s v n a }

pub set_local_region-Keeps : (p : Ptr) (x : Bytes) → Keeps (set_local_region p x)
unfolding set_local_region
set_local_region-Keeps none x = record { at = λ s v. tt }
set_local_region-Keeps (some r) x = record { at = λ s v. set_local_at r s v x }

new_string_at : (a : ℕ) (s : Jvm) → IsValid s → Ensures (Good s) (new_string_utf (some a) s)
unfolding new_string_utf
new_string_at a s v = elim (Option-cases (find_block a s.blocks)) [
  | inl e ↦ rw (e, Ensures) tt
  | inr (b, e) ↦ elim (Option-cases (c_string b.bytes)) [
    | inl h ↦ rw (e, Ensures) (rw (h, Ensures) tt)
    | inr (t, h) ↦ elim (Bool-cases (denied s.denials)) [
      | inl d ↦
          rw (e, Ensures)
            (rw (h, Ensures) (rw (d, Ensures) (bookkeeping-Good s v (later s.denials) _)))
      | inr d ↦
          rw (e, Ensures)
            (rw (h, Ensures) (rw (d, Ensures) (push_string-Good s v t (later s.denials) _)))
    ]
  ]
]

pub new_string_utf-Keeps : (p : Ptr) → Keeps (new_string_utf p)
unfolding new_string_utf
new_string_utf-Keeps none = record { at = λ s v. bookkeeping-Good s v s.denials _ }
new_string_utf-Keeps (some a) = record { at = new_string_at a }

chars_at : (r : ℕ) (s : Jvm) → IsValid s → Ensures (Good s) (get_string_utf_chars r s)
unfolding get_string_utf_chars
chars_at r s v = elim (Option-cases (lookup r s.strings)) [
  | inl e ↦ rw (e, Ensures) tt
  | inr (w, e) ↦ elim (Bool-cases (denied s.denials)) [
    | inl d ↦ rw (e, Ensures) (rw (d, Ensures) tt)
    | inr d ↦ rw (e, Ensures) (rw (d, Ensures) (bookkeeping-Good s v (later s.denials) _))
  ]
]

pub get_string_utf_chars-Keeps : (r : ℕ) → Keeps (get_string_utf_chars r)
get_string_utf_chars-Keeps r = record { at = chars_at r }

string_length_at : (r : ℕ) (s : Jvm) → IsValid s → Ensures (Good s) (get_string_utf_length r s)
unfolding get_string_utf_length
string_length_at r s v = elim (Option-cases (lookup r s.strings)) [
  | inl e ↦ rw (e, Ensures) tt
  | inr (w, e) ↦ rw (e, Ensures) (bookkeeping-Good s v s.denials _)
]

pub get_string_utf_length-Keeps : (r : ℕ) → Keeps (get_string_utf_length r)
get_string_utf_length-Keeps r = record { at = string_length_at r }

pub get_object_class-Keeps : (p : Ptr) → Keeps (get_object_class p)
unfolding get_object_class
get_object_class-Keeps none = record { at = λ s v. tt }
get_object_class-Keeps (some r) = record { at = λ s v. bookkeeping-Good s v s.denials _ }

new_object_array_at : (s : Jvm) → IsValid s → Ensures (Good s) (new_object_array s)
unfolding new_object_array
new_object_array_at s v = elim (Bool-cases (denied s.denials)) [
  | inl d ↦ rw (d, Ensures) (bookkeeping-Good s v (later s.denials) _)
  | inr d ↦ rw (d, Ensures) (bookkeeping-Good s v (later s.denials) _)
]

pub new_object_array-Keeps : Keeps new_object_array
new_object_array-Keeps = record { at = new_object_array_at }

pub set_object_array_element-Keeps :
    (o : Option (Ptr × Ptr)) (i : ℕ) (p : Ptr) → Keeps (set_object_array_element o i p)
unfolding set_object_array_element
set_object_array_element-Keeps none i p = record { at = λ s v. tt }
set_object_array_element-Keeps (some (x, y)) zero p = record {
  at = λ s v. bookkeeping-Good s v s.denials _;
}
set_object_array_element-Keeps (some (x, y)) (suc zero) p = record {
  at = λ s v. bookkeeping-Good s v s.denials _;
}
set_object_array_element-Keeps (some (x, y)) (suc (suc i)) p = record { at = λ s v. tt }

-- ===== src/Jni/FollowsCalls.antt =====
-- The calls of the C heap and of JNI under refused memory: those that ask for some give NULL where it
-- is refused, and none of the others asks.
use chain_wallet.Common.{
  ℕ, zero, suc, ◌≡◌, refl, true, false, ◌⊎◌, Option, none, some, Bytes, arith, Bool-cases,
  Option-cases, inl, inr, replicate,
}
use chain_wallet.Jni.Machine.{M, Kind, heap, Jvm, Ptr, lookup, find_block}
use chain_wallet.Jni.Memory.{denied, obtain, calloc, malloc, free, read, write}
use chain_wallet.Jni.Calls.{
  get_array_length, get_byte_array_region, get_byte_array_elements, get_primitive_array_critical,
  release_byte_array_elements, release_primitive_array_critical, new_byte_array, c_string,
  set_byte_array_region, set_local_region, new_string_utf, get_string_utf_chars,
  get_string_utf_length,
}
use mathlib.Core.Path.{subst}
use chain_wallet.Jni.Objects.{get_object_class, new_object_array, set_object_array_element}
use chain_wallet.Jni.Follows.{
  granted, Agrees, Follows, Refuses, IsMissing, all_granted, uniform-Follows,
}

-- A call that asks for memory once.
request-Follows :
    {A : Type 0} (m : M (Option A))
    → ((s : Jvm) → denied s.denials ≡ true → Refuses IsMissing (m s))
    → ((s : Jvm) → denied s.denials ≡ false → m (granted s) ≡ all_granted (m s))
    → Follows IsMissing m
request-Follows {A} m refused given = record {
  at = λ s. at s (Bool-cases (denied s.denials)) (m s) refl;
}
  where
    at :
        (s : Jvm)
        → (denied s.denials ≡ true) ⊎ (denied s.denials ≡ false)
        → (o : Option (Option A × Jvm)) → m s ≡ o
        → Agrees IsMissing m s o
    at s h none e = tt
    at s (inl d) (some (a, t)) e = inl (subst (Refuses IsMissing) e (refused s d))
    at s (inr d) (some (a, t)) e = inr (subst (λ o. m (granted s) ≡ all_granted o) e (given s d))

missing : {A : Type 0} → IsMissing {A = A} none
missing = record { is_none = refl }

obtain-Follows : (k : Kind) (v : Bytes) → Follows IsMissing (obtain k v)
obtain-Follows k v =
    request-Follows (obtain k v) (λ s d. rw (d, Refuses) missing) (λ s d. rw d refl)

pub calloc-Follows : (n : ℕ) → Follows IsMissing (calloc n)
unfolding calloc
calloc-Follows n = obtain-Follows heap (replicate n 0)

pub malloc-Follows : (n : ℕ) → Follows IsMissing (malloc n)
unfolding malloc
malloc-Follows n = obtain-Follows heap (replicate n 0)

elements_refused :
    (r : ℕ) (s : Jvm) → denied s.denials ≡ true → Refuses IsMissing (get_byte_array_elements r s)
unfolding get_byte_array_elements
elements_refused r s d = elim (Option-cases (lookup r s.arrays)) [
  | inl e ↦ rw (e, Refuses) tt
  | inr (v, e) ↦ rw (e, Refuses) (rw (d, Refuses) missing)
]

pub get_byte_array_elements-Follows : (r : ℕ) → Follows IsMissing (get_byte_array_elements r)
unfolding get_byte_array_elements
get_byte_array_elements-Follows r = request-Follows _ (elements_refused r) (λ s d. ground arith)

critical_refused :
    (r : ℕ) (s : Jvm)
    → denied s.denials ≡ true
    → Refuses IsMissing (get_primitive_array_critical r s)
unfolding get_primitive_array_critical
critical_refused r s d = elim (Option-cases (lookup r s.arrays)) [
  | inl e ↦ rw (e, Refuses) tt
  | inr (v, e) ↦ rw (e, Refuses) (rw (d, Refuses) missing)
]

pub get_primitive_array_critical-Follows :
    (r : ℕ) → Follows IsMissing (get_primitive_array_critical r)
unfolding get_primitive_array_critical
get_primitive_array_critical-Follows r =
    request-Follows _ (critical_refused r) (λ s d. ground arith)

pub new_byte_array-Follows : (n : ℕ) → Follows IsMissing (new_byte_array n)
unfolding new_byte_array
new_byte_array-Follows n =
    request-Follows (new_byte_array n) (λ s d. rw (d, Refuses) missing) (λ s d. rw d refl)

new_string_refused :
    (a : ℕ) (s : Jvm) → denied s.denials ≡ true → Refuses IsMissing (new_string_utf (some a) s)
unfolding new_string_utf
new_string_refused a s d = elim (Option-cases (find_block a s.blocks)) [
  | inl e ↦ rw (e, Refuses) tt
  | inr (b, e) ↦ elim (Option-cases (c_string b.bytes)) [
    | inl h ↦ rw (e, Refuses) (rw (h, Refuses) tt)
    | inr (t, h) ↦ rw (e, Refuses) (rw (h, Refuses) (rw (d, Refuses) missing))
  ]
]

new_string_given :
    (a : ℕ) (s : Jvm)
    → denied s.denials ≡ false
    → new_string_utf (some a) (granted s) ≡ all_granted (new_string_utf (some a) s)
unfolding new_string_utf
new_string_given a s d = ground arith

pub new_string_utf-Follows : (p : Ptr) → Follows IsMissing (new_string_utf p)
unfolding new_string_utf
new_string_utf-Follows none = uniform-Follows _ (λ s. refl)
new_string_utf-Follows (some a) = request-Follows _ (new_string_refused a) (new_string_given a)

pub new_object_array-Follows : Follows IsMissing new_object_array
unfolding new_object_array
new_object_array-Follows =
    request-Follows new_object_array (λ s d. rw (d, Refuses) missing) (λ s d. rw d refl)

-- Calls that ask for none.
module _ {P : ℕ → Type 0} where
  pub get_array_length-Follows : (r : ℕ) → Follows P (get_array_length r)
  unfolding get_array_length
  get_array_length-Follows r = uniform-Follows _ (λ s. ground arith)

  pub get_string_utf_length-Follows : (r : ℕ) → Follows P (get_string_utf_length r)
  unfolding get_string_utf_length
  get_string_utf_length-Follows r = uniform-Follows _ (λ s. ground arith)

module _ {P : Bytes → Type 0} where
  pub get_byte_array_region-Follows : (r : ℕ) → Follows P (get_byte_array_region r)
  unfolding get_byte_array_region
  get_byte_array_region-Follows r = uniform-Follows _ (λ s. ground arith)

  pub read-Follows : (p : Ptr) (n : ℕ) → Follows P (read p n)
  unfolding read
  read-Follows none n = uniform-Follows _ (λ s. refl)
  read-Follows (some a) n = uniform-Follows _ (λ s. ground arith)

  -- Refused characters are a fault.
  pub get_string_utf_chars-Follows : (r : ℕ) → Follows P (get_string_utf_chars r)
  unfolding get_string_utf_chars
  get_string_utf_chars-Follows r = record { at = λ s. at s (get_string_utf_chars r s) refl }
    where
      at :
          (s : Jvm) (o : Option (Bytes × Jvm))
          → get_string_utf_chars r s ≡ o
          → Agrees P (get_string_utf_chars r) s o
      at s none e = tt
      at s (some (v, t)) e = inr (ground arith)

module _ {P : Unit {0} → Type 0} where
  pub free-Follows : (p : Ptr) → Follows P (free p)
  unfolding free
  free-Follows none = uniform-Follows _ (λ s. refl)
  free-Follows (some a) = uniform-Follows _ (λ s. ground arith)

  pub write-Follows : (p : Ptr) (v : Bytes) → Follows P (write p v)
  unfolding write
  write-Follows none v = uniform-Follows _ (λ s. refl)
  write-Follows (some a) v = uniform-Follows _ (λ s. ground arith)

  pub release_byte_array_elements-Follows :
      (r : ℕ) (p : Ptr) → Follows P (release_byte_array_elements r p)
  unfolding release_byte_array_elements
  release_byte_array_elements-Follows r none = uniform-Follows _ (λ s. refl)
  release_byte_array_elements-Follows r (some a) = uniform-Follows _ (λ s. ground arith)

  pub release_primitive_array_critical-Follows :
      (r : ℕ) (p : Ptr) → Follows P (release_primitive_array_critical r p)
  unfolding release_primitive_array_critical
  release_primitive_array_critical-Follows r none = uniform-Follows _ (λ s. refl)
  release_primitive_array_critical-Follows r (some a) = uniform-Follows _ (λ s. ground arith)

  pub set_byte_array_region-Follows :
      (p : Ptr) (n : ℕ) (q : Ptr) → Follows P (set_byte_array_region p n q)
  unfolding set_byte_array_region
  set_byte_array_region-Follows none n q = uniform-Follows _ (λ s. refl)
  set_byte_array_region-Follows (some r) n none = uniform-Follows _ (λ s. refl)
  set_byte_array_region-Follows (some r) n (some a) = uniform-Follows _ (λ s. ground arith)

  pub set_local_region-Follows : (p : Ptr) (v : Bytes) → Follows P (set_local_region p v)
  unfolding set_local_region
  set_local_region-Follows none v = uniform-Follows _ (λ s. refl)
  set_local_region-Follows (some r) v = uniform-Follows _ (λ s. ground arith)

  pub get_object_class-Follows : (p : Ptr) → Follows P (get_object_class p)
  unfolding get_object_class
  get_object_class-Follows none = uniform-Follows _ (λ s. refl)
  get_object_class-Follows (some r) = uniform-Follows _ (λ s. refl)

pub set_object_array_element-Follows :
    {P : Ptr × Ptr → Type 0} (o : Option (Ptr × Ptr)) (i : ℕ) (p : Ptr)
    → Follows P (set_object_array_element o i p)
unfolding set_object_array_element
set_object_array_element-Follows none i p = uniform-Follows _ (λ s. refl)
set_object_array_element-Follows (some (x, y)) zero p = uniform-Follows _ (λ s. refl)
set_object_array_element-Follows (some (x, y)) (suc zero) p = uniform-Follows _ (λ s. refl)
set_object_array_element-Follows (some (x, y)) (suc (suc i)) p = uniform-Follows _ (λ s. refl)

-- ===== src/Jni/MovesCalls.antt =====
-- The calls of the C heap and of JNI, and the functions of native-crypto/jni_method.c, by what they do to
-- the number of open critical regions.
use chain_wallet.Common.{ℕ, zero, suc, Bool, none, some, Bytes, arith, Option}
use chain_wallet.Jni.Machine.{M, Ptr, ◌>>=◌}
use chain_wallet.Jni.Memory.{calloc, malloc, free, read, write}
use chain_wallet.Jni.Calls.{
  get_array_length, get_byte_array_region, get_byte_array_elements, release_byte_array_elements,
  release_primitive_array_critical, new_byte_array, set_byte_array_region, set_local_region,
  new_string_utf, get_string_utf_chars, get_string_utf_length,
}
use chain_wallet.Jni.Objects.{get_object_class, new_object_array, set_object_array_element}
use chain_wallet.Jni.Method.{
  copy_array_to_c, copy_array_release, critical_array_to_c, critical_array_release, return_local,
}
use chain_wallet.Jni.MovesSteps.{
  moved, always_Quiet, unmoved, entering, opened_regions, closed_regions,
}
use chain_wallet.Jni.Moves.{
  After, Quiet, Quiet-refl, Allowed, outside, Moves, still, held, Moves-pure, Moves-fault,
  Moves-lift, Moves-if, Moves-bind, bind-Moves, Moves-option, Moves-ptr, Moves-held,
}

module _ {q : Bool} {n : ℕ} where
  pub calloc-Moves : (k : ℕ) → Moves q n (still n) (calloc k)
  unfolding calloc
  calloc-Moves k = unmoved _ (λ s t x e. (ground arith, ground arith))

  pub malloc-Moves : (k : ℕ) → Moves q n (still n) (malloc k)
  unfolding malloc
  malloc-Moves k = unmoved _ (λ s t x e. (ground arith, ground arith))

  pub free-Moves : (p : Ptr) → Moves q n (still n) (free p)
  unfolding free
  free-Moves none = unmoved _ (λ s t x e. (ground arith, ground arith))
  free-Moves (some b) = unmoved _ (λ s t x e. (ground arith, ground arith))

  pub read-Moves : (p : Ptr) (i : ℕ) → Moves q n (still n) (read p i)
  unfolding read
  read-Moves none i = unmoved _ (λ s t x e. (ground arith, ground arith))
  read-Moves (some b) i = unmoved _ (λ s t x e. (ground arith, ground arith))

  pub write-Moves : (p : Ptr) (v : Bytes) → Moves q n (still n) (write p v)
  unfolding write
  write-Moves none v = unmoved _ (λ s t x e. (ground arith, ground arith))
  write-Moves (some b) v = unmoved _ (λ s t x e. (ground arith, ground arith))

  pub get_byte_array_region-Moves :
      (r : ℕ) → Allowed q n → Moves q n (still n) (get_byte_array_region r)
  unfolding get_byte_array_region
  get_byte_array_region-Moves r ok = entering _ ok (λ s t x e. (ground arith, ground arith))

  pub new_byte_array-Moves : (i : ℕ) → Allowed q n → Moves q n (still n) (new_byte_array i)
  unfolding new_byte_array
  new_byte_array-Moves i ok = entering _ ok (λ s t x e. (ground arith, ground arith))

  pub set_byte_array_region-Moves :
      (p : Ptr) (i : ℕ) (c : Ptr) → Allowed q n → Moves q n (still n) (set_byte_array_region p i c)
  unfolding set_byte_array_region
  set_byte_array_region-Moves none i c ok = entering _ ok (λ s t x e. (ground arith, ground arith))
  set_byte_array_region-Moves (some r) i none ok =
      entering _ ok (λ s t x e. (ground arith, ground arith))
  set_byte_array_region-Moves (some r) i (some b) ok =
      entering _ ok (λ s t x e. (ground arith, ground arith))

  pub set_local_region-Moves :
      (p : Ptr) (v : Bytes) → Allowed q n → Moves q n (still n) (set_local_region p v)
  unfolding set_local_region
  set_local_region-Moves none v ok = entering _ ok (λ s t x e. (ground arith, ground arith))
  set_local_region-Moves (some r) v ok = entering _ ok (λ s t x e. (ground arith, ground arith))

  pub get_object_class-Moves : (p : Ptr) → Allowed q n → Moves q n (still n) (get_object_class p)
  unfolding get_object_class
  get_object_class-Moves none ok = entering _ ok (λ s t x e. (ground arith, ground arith))
  get_object_class-Moves (some r) ok = entering _ ok (λ s t x e. (ground arith, ground arith))

  pub new_object_array-Moves : Allowed q n → Moves q n (still n) new_object_array
  unfolding new_object_array
  new_object_array-Moves ok = entering _ ok (λ s t x e. (ground arith, ground arith))

  pub set_object_array_element-Moves :
      (o : Option (Ptr × Ptr)) (i : ℕ) (p : Ptr)
      → Allowed q n
      → Moves q n (still n) (set_object_array_element o i p)
  unfolding set_object_array_element
  set_object_array_element-Moves none i p ok =
      entering _ ok (λ s t x e. (ground arith, ground arith))
  set_object_array_element-Moves (some (y, z)) zero p ok =
      entering _ ok (λ s t x e. (ground arith, ground arith))
  set_object_array_element-Moves (some (y, z)) (suc zero) p ok =
      entering _ ok (λ s t x e. (ground arith, ground arith))
  set_object_array_element-Moves (some (y, z)) (suc (suc i)) p ok =
      entering _ ok (λ s t x e. (ground arith, ground arith))

  pub new_string_utf-Moves : (p : Ptr) → Allowed q n → Moves q n (still n) (new_string_utf p)
  unfolding new_string_utf
  new_string_utf-Moves none ok = entering _ ok (λ s t x e. (ground arith, ground arith))
  new_string_utf-Moves (some b) ok = entering _ ok (λ s t x e. (ground arith, ground arith))

  pub get_string_utf_chars-Moves :
      (r : ℕ) → Allowed q n → Moves q n (still n) (get_string_utf_chars r)
  unfolding get_string_utf_chars
  get_string_utf_chars-Moves r ok = entering _ ok (λ s t x e. (ground arith, ground arith))

  pub get_string_utf_length-Moves :
      (r : ℕ) → Allowed q n → Moves q n (still n) (get_string_utf_length r)
  unfolding get_string_utf_length
  get_string_utf_length-Moves r ok = entering _ ok (λ s t x e. (ground arith, ground arith))

  pub get_array_length-Moves : (r : ℕ) → Allowed q n → Moves q n (still n) (get_array_length r)
  unfolding get_array_length
  get_array_length-Moves r ok = entering _ ok (λ s t x e. (ground arith, ground arith))

  pub get_byte_array_elements-Moves :
      (r : ℕ) → Allowed q n → Moves q n (still n) (get_byte_array_elements r)
  unfolding get_byte_array_elements
  get_byte_array_elements-Moves r ok = entering _ ok (λ s t x e. (ground arith, ground arith))

  pub copy_array_to_c-Moves : (r : ℕ) → Allowed q n → Moves q n (still n) (copy_array_to_c r)
  unfolding copy_array_to_c
  copy_array_to_c-Moves r ok =
      Moves-bind _ _ (get_array_length-Moves r ok)
        λ l. Moves-bind _ _ (get_byte_array_elements-Moves r ok) λ p. Moves-pure (p, l)

  pub copy_array_release-Moves :
      (r : ℕ) (p : Ptr) → Allowed q n → Moves q n (still n) (copy_array_release r p)
  unfolding copy_array_release release_byte_array_elements
  copy_array_release-Moves r none ok = entering _ ok (λ s t x e. (ground arith, ground arith))
  copy_array_release-Moves r (some b) ok = entering _ ok (λ s t x e. (ground arith, ground arith))

  pub critical_array_to_c-Moves : (r : ℕ) → Allowed q n → Moves q n (held n) (critical_array_to_c r)
  unfolding critical_array_to_c
  critical_array_to_c-Moves r ok = Moves-bind _ _ (get_array_length-Moves r ok) λ l.
      bind-Moves (λ p. held n (p, l)) _ _
        (moved q n _ _
          (λ s t p e h. let (o, u) = opened_regions n r l p s t e h in (o, always_Quiet q s t u)))
        λ p. record { at = λ s h. (h, Quiet-refl q s) }

module _ {B : Type 0} {q : Bool} {n : ℕ} {k : B → ℕ} (r : ℕ) (f : Unit {0} → M B) where
  pub critical_array_release-Moves :
      (a : ℕ)
      → ((u : Unit {0}) → Moves q n k (f u))
      → Moves q (suc n) k (critical_array_release r (some a) >>= f)
  critical_array_release-Moves a kf =
      bind-Moves (still n) _ f
        (moved q (suc n) (still n) _
          (λ s t u e h. let (o, w) = closed_regions n r a s t u e h in (o, always_Quiet q s t w)))
        kf

  -- A missing pointer is not released.
  pub missing-Moves : Moves q n k (critical_array_release r none >>= f)
  unfolding critical_array_release release_primitive_array_critical ◌>>=◌
  missing-Moves = record { at = λ s h. tt }

-- Nor is it read.
pub missing_read-Moves :
    {B : Type 0} {q : Bool} {n : ℕ} {k : B → ℕ} (l : ℕ) (f : Bytes → M B)
    → Moves q n k (read none l >>= f)
unfolding read ◌>>=◌
missing_read-Moves l f = record { at = λ s h. tt }

pub return_local-Moves :
    {q : Bool} {n : ℕ} (i : ℕ) (v : Bytes) → Allowed q n → Moves q n (still n) (return_local i v)
unfolding return_local
return_local-Moves i v ok =
    Moves-bind _ _ (new_byte_array-Moves i ok)
      λ p. Moves-bind _ _ (set_local_region-Moves p v ok) λ u. Moves-pure p

pub ruleset moves_rules = (
  missing-Moves, missing_read-Moves, critical_array_release-Moves, Moves-held, Moves-pure,
  Moves-fault, Moves-lift, Moves-if, Moves-ptr, Moves-bind, Moves-option, critical_array_to_c-Moves,
  calloc-Moves, malloc-Moves, free-Moves, read-Moves, write-Moves, get_byte_array_region-Moves,
  new_byte_array-Moves, set_byte_array_region-Moves, set_local_region-Moves, new_string_utf-Moves,
  get_string_utf_chars-Moves, get_string_utf_length-Moves, copy_array_to_c-Moves,
  copy_array_release-Moves, return_local-Moves, get_object_class-Moves, new_object_array-Moves,
  set_object_array_element-Moves,
)

-- ===== src/Jni/Arrays.antt =====
-- Steps with new arrays, and what a release does to the arrays once a new one stands before them.
use chain_wallet.Common.{
  ℕ, ◌≡◌, refl, none, some, Bytes, length, replicate, take_all, drop_all, length-replicate, ◌==◌,
  false, arith, append-nil, eq_self,
}
use chain_wallet.Jni.Machine.{Store, Jvm, Ptr, lookup}
use chain_wallet.Jni.Calls.{set_local_region}
use chain_wallet.Jni.Objects.{get_object_class, new_object_array, set_object_array_element}
use chain_wallet.Jni.Method.{return_local}
use chain_wallet.Jni.Steps.{ready, with_array, set_array, bind_step, new_array_step}

-- A reference that is in use is not one that is free.
pub lookup-apart :
    (r q : ℕ) (m : Store) {v : Bytes} → lookup r m ≡ some v → lookup q m ≡ none → (r == q) ≡ false
lookup-apart r q m h k = grind arith

pub set_local_step :
    (r : ℕ) (v old : Bytes) (s : Jvm)
    → lookup r s.arrays ≡ some old
    → length v ≡ length old
    → set_local_region (some r) v (ready 0 s) ≡ some (tt, ready 0 (set_array r v s))
unfolding set_local_region ready
set_local_step r v old s h e =
    ground (arith, take_all (length v) v, drop_all (length v) old, append-nil v)

pub return_local_step :
    (n : ℕ) (v : Bytes) (s : Jvm)
    → length v ≡ n
    → return_local n v (ready 0 s) ≡ some (some s.next_ref, ready 0 (with_array v s))
unfolding return_local
return_local_step n v s e = bind_step _ _ (new_array_step n s) (
    bind_step _ _
      (set_local_step s.next_ref v (replicate n 0) _ (rw eq_self) (rw e (rw length-replicate refl)))
      (rw eq_self))

-- The class of an array, a new array of objects, and its elements.
pub class_step : (r : ℕ) (s : Jvm) → get_object_class (some r) (ready 0 s) ≡ some (tt, ready 0 s)
unfolding get_object_class ready
class_step r s = refl

pub objects_step : (s : Jvm) → new_object_array (ready 0 s) ≡ some (some (none, none), ready 0 s)
unfolding new_object_array ready
objects_step s = refl

pub set_first_step :
    (x y p : Ptr) (s : Jvm)
    → set_object_array_element (some (x, y)) 0 p (ready 0 s) ≡ some ((p, y), ready 0 s)
unfolding set_object_array_element ready
set_first_step x y p s = refl

pub set_second_step :
    (x y p : Ptr) (s : Jvm)
    → set_object_array_element (some (x, y)) 1 p (ready 0 s) ≡ some ((x, p), ready 0 s)
unfolding set_object_array_element ready
set_second_step x y p s = refl

-- ===== src/Jni/EndsCalls.antt =====
-- What the use of a missing pointer ends in: a fault.
use chain_wallet.Common.{ℕ, none, some, Bytes}
use chain_wallet.Jni.Machine.{M, Ptr, ◌>>=◌}
use chain_wallet.Jni.Memory.{read, write}
use chain_wallet.Jni.Calls.{
  release_byte_array_elements, release_primitive_array_critical, set_byte_array_region,
  set_local_region,
}
use chain_wallet.Jni.Objects.{get_object_class, set_object_array_element}
use chain_wallet.Jni.Follows.{Ends, Ends-first}

module _ {A : Type 0} {P : A → Type 0} where
  pub read-Ends : (n : ℕ) (f : Bytes → M A) → Ends P (read none n >>= f)
  unfolding read
  read-Ends n f = Ends-first _ f record { at = λ s. tt }

  module _ (f : Unit {0} → M A) where
    pub write-Ends : (v : Bytes) → Ends P (write none v >>= f)
    unfolding write
    write-Ends v = Ends-first _ f record { at = λ s. tt }

    pub release_byte_array_elements-Ends :
        (r : ℕ) → Ends P (release_byte_array_elements r none >>= f)
    unfolding release_byte_array_elements
    release_byte_array_elements-Ends r = Ends-first _ f record { at = λ s. tt }

    pub release_primitive_array_critical-Ends :
        (r : ℕ) → Ends P (release_primitive_array_critical r none >>= f)
    unfolding release_primitive_array_critical
    release_primitive_array_critical-Ends r = Ends-first _ f record { at = λ s. tt }

    pub set_byte_array_region-Ends :
        (n : ℕ) (q : Ptr) → Ends P (set_byte_array_region none n q >>= f)
    unfolding set_byte_array_region
    set_byte_array_region-Ends n q = Ends-first _ f record { at = λ s. tt }

    pub set_local_region-Ends : (v : Bytes) → Ends P (set_local_region none v >>= f)
    unfolding set_local_region
    set_local_region-Ends v = Ends-first _ f record { at = λ s. tt }

    -- Nor can an array be filled from a missing block.
    pub set_from_missing-Ends : (p : Ptr) (n : ℕ) → Ends P (set_byte_array_region p n none >>= f)
    unfolding set_byte_array_region
    set_from_missing-Ends none n = Ends-first _ f record { at = λ s. tt }
    set_from_missing-Ends (some r) n = Ends-first _ f record { at = λ s. tt }

    pub get_object_class-Ends : Ends P (get_object_class none >>= f)
    unfolding get_object_class
    get_object_class-Ends = Ends-first _ f record { at = λ s. tt }

  -- Nor an element of an array that is missing.
  pub set_object_array_element-Ends :
      (f : Ptr × Ptr → M A) (i : ℕ) (p : Ptr) → Ends P (set_object_array_element none i p >>= f)
  unfolding set_object_array_element
  set_object_array_element-Ends f i p = Ends-first _ f record { at = λ s. tt }

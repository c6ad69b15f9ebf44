-- ===== src/Jni/Keeps.antt =====
-- Code that keeps the machine valid, and neither resizes an array nor changes a string: one rule for
-- each way to build it, and one for each call of the C heap and of JNI.
use chain_wallet.Common.{ℕ, ◌≡◌, Bool, true, false, Option, none, some, Bytes, if◌then◌else◌}
use chain_wallet.Jni.Machine.{Jvm, M, pure, fault, lift, ◌>>=◌, lookup}
use chain_wallet.Jni.Valid.{size_of, IsValid}

-- What valid machine a valid one goes to.
pub record Good (s t : Jvm) : Type 0 where
  pub valid : IsValid t
  pub arrays : (r n : ℕ) → size_of r s.arrays ≡ some n → size_of r t.arrays ≡ some n
  pub strings : (r : ℕ) (v : Bytes) → lookup r s.strings ≡ some v → lookup r t.strings ≡ some v

pub Good-refl : (s : Jvm) → IsValid s → Good s s
Good-refl s v = record { valid = v; arrays = λ r n h. h; strings = λ r w h. h }

pub Good-trans : (s t u : Jvm) → Good s t → Good t u → Good s u
Good-trans s t u g h = record {
  valid = h.valid;
  arrays = λ r n e. h.arrays r n (g.arrays r n e);
  strings = λ r v e. h.strings r v (g.strings r v e);
}

-- Of a run that returns.
abbrev pub Ensures : {A : Type 0} → (Jvm → Type 0) → Option (A × Jvm) → Type 0
Ensures P none = Unit
Ensures P (some (a, t)) = P t

pub record Keeps {A : Type 0} (m : M A) : Type 0 where
  pub at : (s : Jvm) → IsValid s → Ensures (Good s) (m s)

module _ {A : Type 0} where
  pub Keeps-pure : (a : A) → Keeps (pure a)
  Keeps-pure a = record { at = Good-refl }

  pub Keeps-fault : Keeps (fault {A = A})
  Keeps-fault = record { at = λ s v. tt }

  pub Keeps-lift : (o : Option A) → Keeps (lift o)
  Keeps-lift none = record { at = λ s v. tt }
  Keeps-lift (some a) = record { at = Good-refl }

  pub Keeps-if : (b : Bool) (m n : M A) → Keeps m → Keeps n → Keeps (if b then m else n)
  Keeps-if true m n km kn = km
  Keeps-if false m n km kn = kn

module _ {A B : Type 0} where
  continue :
      (s : Jvm) (f : A → M B) (o : Option (A × Jvm))
      → Ensures (Good s) o
      → ((a : A) → Keeps (f a))
      → Ensures (Good s) (elim o [ none ↦ none | some (a, t) ↦ f a t ])
  continue s f none h kf = tt
  continue s f (some (a, t)) h kf = later_run s t (f a t) h ((kf a).at t h.valid)
    where
      later_run :
          (s t : Jvm) (o : Option (B × Jvm)) → Good s t → Ensures (Good t) o → Ensures (Good s) o
      later_run s t none g h = tt
      later_run s t (some (b, u)) g h = Good-trans s t u g h

  pub Keeps-bind : (m : M A) (f : A → M B) → Keeps m → ((a : A) → Keeps (f a)) → Keeps (m >>= f)
  unfolding ◌>>=◌
  Keeps-bind m f km kf = record { at = λ s v. continue s f (m s) (km.at s v) kf }

-- A call that may give NULL.
pub Keeps-ptr :
    {A B : Type 0} (m : M (Option A)) (f : Option A → M B)
    → Keeps m
    → Keeps (f none)
    → ((a : A) → Keeps (f (some a)))
    → Keeps (m >>= f)
Keeps-ptr {A} m f km kn ks = Keeps-bind m f km cases
  where
    cases : (o : Option A) → Keeps (f o)
    cases none = kn
    cases (some a) = ks a

-- A change that leaves the arrays' sizes and the strings alone.
pub same_store-Good :
    (s t : Jvm) → IsValid t → t.arrays ≡ s.arrays → t.strings ≡ s.strings → Good s t
same_store-Good s t v e f = record {
  valid = v;
  arrays = λ r n h. rw e h;
  strings = λ r w h. rw f h;
}

-- Where a result may be missing.
pub Keeps-option :
    {A B : Type 0} (o : Option A) (n : M B) (f : A → M B)
    → Keeps n
    → ((a : A) → Keeps (f a))
    → Keeps (elim o [ none ↦ n | some a ↦ f a ])
Keeps-option none n f kn kf = kn
Keeps-option (some a) n f kn kf = kf a

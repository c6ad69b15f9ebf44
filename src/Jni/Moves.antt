-- ===== src/Jni/Moves.antt =====
-- How code changes the number of open critical regions, and whether it makes no JNI call inside one: one
-- rule for each way to build it.
use chain_wallet.Common.{
  ℕ, zero, suc, ◌≡◌, refl, ◌∙◌, Bool, true, false, Option, none, some, if◌then◌else◌,
}
use chain_wallet.Jni.Machine.{Jvm, M, pure, fault, lift, ◌>>=◌}

-- Of a quiet run no JNI call inside a critical region is counted.
abbrev pub Quiet : Bool → Jvm → Jvm → Type 0
Quiet false s t = Unit
Quiet true s t = t.unsafe_calls ≡ s.unsafe_calls

-- Where JNI calls are made: anywhere, or, by quiet code, where no region is open.
pub data Allowed : Bool → ℕ → Type 0 where
  anywhere : (n : ℕ) → Allowed false n
  outside : Allowed true zero

-- Of a run: where it returns, as many regions are open as `k` says of its result.
abbrev pub After : {A : Type 0} → Bool → (A → ℕ) → Jvm → Option (A × Jvm) → Type 0
After q k s none = Unit
After q k s (some (a, t)) = (t.open_regions ≡ k a) × Quiet q s t

-- From `n` open regions.
pub record Moves {A : Type 0} (q : Bool) (n : ℕ) (k : A → ℕ) (m : M A) : Type 0 where
  pub at : (s : Jvm) → s.open_regions ≡ n → After q k s (m s)

-- The same number whatever the result is.
abbrev pub still : {A : Type 0} → ℕ → A → ℕ
still n a = n

pub Quiet-refl : (q : Bool) (s : Jvm) → Quiet q s s
Quiet-refl false s = tt
Quiet-refl true s = refl

pub Quiet-trans : (q : Bool) (s t u : Jvm) → Quiet q s t → Quiet q t u → Quiet q s u
Quiet-trans false s t u h k = tt
Quiet-trans true s t u h k = k ∙ h

module _ {A : Type 0} {q : Bool} {n : ℕ} where
  pub Moves-pure : (a : A) → Moves q n (still n) (pure a)
  Moves-pure a = record { at = λ s h. (h, Quiet-refl q s) }

  pub Moves-fault : {k : A → ℕ} → Moves q n k (fault {A = A})
  Moves-fault = record { at = λ s h. tt }

  pub Moves-lift : (o : Option A) → Moves q n (still n) (lift o)
  Moves-lift none = record { at = λ s h. tt }
  Moves-lift (some a) = record { at = λ s h. (h, Quiet-refl q s) }

  pub Moves-if :
      {k : A → ℕ} (b : Bool) (l m : M A)
      → Moves q n k l
      → Moves q n k m
      → Moves q n k (if b then l else m)
  Moves-if true l m kl km = kl
  Moves-if false l m kl km = km

-- What follows a run from where that ends.
pub After-trans :
    {A : Type 0} (q : Bool) (k : A → ℕ) (s t : Jvm) (o : Option (A × Jvm))
    → Quiet q s t
    → After q k t o
    → After q k s o
After-trans q k s t none h g = tt
After-trans q k s t (some (a, u)) h (open_then, g) = (open_then, Quiet-trans q s t u h g)

onward :
    {A B : Type 0} (q : Bool) (k : B → ℕ) (d : A → ℕ) (f : A → M B) (s : Jvm) (o : Option (A × Jvm))
    → After q d s o
    → ((a : A) → Moves q (d a) k (f a))
    → After q k s (elim o [ none ↦ none | some (a, t) ↦ f a t ])
onward q k d f s none h kf = tt
onward q k d f s (some (a, t)) (h, g) kf = After-trans q k s t (f a t) g ((kf a).at t h)

module _ {A B : Type 0} {q : Bool} {n : ℕ} {k : B → ℕ} where
  pub bind-Moves :
      (d : A → ℕ) (m : M A) (f : A → M B)
      → Moves q n d m
      → ((a : A) → Moves q (d a) k (f a))
      → Moves q n k (m >>= f)
  unfolding ◌>>=◌
  bind-Moves d m f km kf = record { at = λ s h. onward q k d f s (m s) (km.at s h) kf }

  pub Moves-bind :
      (m : M A) (f : A → M B)
      → Moves q n (still n) m
      → ((a : A) → Moves q n k (f a))
      → Moves q n k (m >>= f)
  Moves-bind m f km kf = bind-Moves (still n) m f km kf

  -- Where a result may be missing.
  pub Moves-option :
      (o : Option A) (m : M B) (f : A → M B)
      → Moves q n k m
      → ((a : A) → Moves q n k (f a))
      → Moves q n k (elim o [ none ↦ m | some a ↦ f a ])
  Moves-option none m f km kf = km
  Moves-option (some a) m f km kf = kf a

pub Moves-ptr :
    {A B : Type 0} {q : Bool} {n : ℕ} {k : B → ℕ} (m : M (Option A)) (f : Option A → M B)
    → Moves q n (still n) m
    → Moves q n k (f none)
    → ((a : A) → Moves q n k (f (some a)))
    → Moves q n k (m >>= f)
Moves-ptr {A} {q = q} {n = n} {k = k} m f km kn ks = Moves-bind m f km cases
  where
    cases : (o : Option A) → Moves q n k (f o)
    cases none = kn
    cases (some a) = ks a

-- One more region where a pointer comes back.
abbrev pub held : {A B : Type 0} → ℕ → Option A × B → ℕ
held n (none, b) = n
held n (some a, b) = suc n

pub Moves-held :
    {A B C : Type 0} {q : Bool} {n : ℕ} {k : C → ℕ} (m : M (Option A × B)) (f : Option A × B → M C)
    → Moves q n (held n) m
    → ((b : B) → Moves q n k (f (none, b)))
    → ((a : A) (b : B) → Moves q (suc n) k (f (some a, b)))
    → Moves q n k (m >>= f)
Moves-held {A} {B} {q = q} {n = n} {k = k} m f km kn ks = bind-Moves (held n) m f km cases
  where
    cases : (x : Option A × B) → Moves q (held n x) k (f x)
    cases (none, b) = kn b
    cases (some a, b) = ks a b

-- ===== src/Jni/Follows.antt =====
-- Code under refused memory: whatever requests are refused, it does what it does where none is, or its
-- result is one of those that stand for a refusal, or it is a fault. One rule for each way to build it.
use chain_wallet.Common.{
  ◌≡◌, refl, ◌⊎◌, inl, inr, sym, Bool, true, false, Option, none, some, [], if◌then◌else◌,
}
use chain_wallet.Jni.Machine.{Jvm, M, pure, fault, lift, ◌>>=◌}
use chain_wallet.Jni.Steps.{bind_step}
use mathlib.Core.Path.{subst}

-- The same machine with no request refused.
abbrev pub granted : Jvm → Jvm
granted s = record s { denials = [] }

-- Of a run that returns: its result stands for a refusal (`P`), or the machine that grants all goes
-- the same way.
abbrev pub Agrees : {A : Type 0} → (A → Type 0) → M A → Jvm → Option (A × Jvm) → Type 0
Agrees P m s none = Unit
Agrees P m s (some (a, t)) = P a ⊎ (m (granted s) ≡ some (a, granted t))

pub record Follows {A : Type 0} (P : A → Type 0) (m : M A) : Type 0 where
  pub at : (s : Jvm) → Agrees P m s (m s)

-- Of a run that returns: its result stands for a refusal.
abbrev pub Refuses : {A : Type 0} → (A → Type 0) → Option (A × Jvm) → Type 0
Refuses P none = Unit
Refuses P (some (a, t)) = P a

-- What is left to do once a request was refused.
pub record Ends {A : Type 0} (P : A → Type 0) (m : M A) : Type 0 where
  pub at : (s : Jvm) → Refuses P (m s)

-- No result stands for a refusal.
pub data Never {A : Type 0} (a : A) : Type 0 where

pub record IsMissing {A : Type 0} (o : Option A) : Type 0 where
  pub is_none : o ≡ none

-- A missing pointer beside a length.
pub record IsMissingOf {A B : Type 0} (x : Option A × B) : Type 0 where
  pub is_none : x.0 ≡ none

refused-Agrees :
    {A : Type 0} (P : A → Type 0) (m : M A) (s : Jvm) (o : Option (A × Jvm))
    → Refuses P o
    → Agrees P m s o
refused-Agrees P m s none h = tt
refused-Agrees P m s (some (a, t)) h = inl h

module _ {A : Type 0} {P : A → Type 0} where
  pub Follows-pure : (a : A) → Follows P (pure a)
  Follows-pure a = record { at = λ s. inr refl }

  pub Follows-fault : Follows P (fault {A = A})
  Follows-fault = record { at = λ s. tt }

  pub Follows-lift : (o : Option A) → Follows P (lift o)
  Follows-lift none = record { at = λ s. tt }
  Follows-lift (some a) = record { at = λ s. inr refl }

  pub Follows-if :
      (b : Bool) (m n : M A) → Follows P m → Follows P n → Follows P (if b then m else n)
  Follows-if true m n km kn = km
  Follows-if false m n km kn = kn

  pub Ends-fault : Ends P (fault {A = A})
  Ends-fault = record { at = λ s. tt }

  pub Ends-pure : (a : A) → P a → Ends P (pure a)
  Ends-pure a p = record { at = λ s. p }

  pub Ends-if : (b : Bool) (m n : M A) → Ends P m → Ends P n → Ends P (if b then m else n)
  Ends-if true m n km kn = km
  Ends-if false m n km kn = kn

  pub Ends-Follows : (m : M A) → Ends P m → Follows P m
  Ends-Follows m k = record { at = λ s. refused-Agrees P m s (m s) (k.at s) }

abbrev pub all_granted : {A : Type 0} → Option (A × Jvm) → Option (A × Jvm)
all_granted none = none
all_granted (some (a, t)) = some (a, granted t)

-- A call that asks for no memory.
pub uniform-Follows :
    {A : Type 0} {P : A → Type 0} (m : M A)
    → ((s : Jvm) → m (granted s) ≡ all_granted (m s))
    → Follows P m
uniform-Follows {A} {P} m same = record { at = λ s. cases s (m s) refl }
  where
    cases : (s : Jvm) (o : Option (A × Jvm)) → m s ≡ o → Agrees P m s o
    cases s none e = tt
    cases s (some (a, t)) e = inr (subst (λ o. m (granted s) ≡ all_granted o) e (same s))

carried :
    {A B : Type 0} (P : B → Type 0) (m : M A) (f : A → M B) (s t : Jvm) (a : A)
    (o : Option (B × Jvm))
    → m (granted s) ≡ some (a, granted t)
    → Agrees P (f a) t o
    → Agrees P (m >>= f) s o
carried P m f s t a none e h = tt
carried P m f s t a (some (b, u)) e (inl p) = inl p
carried P m f s t a (some (b, u)) e (inr h) = inr (bind_step m f e h)

module _ {A B : Type 0} {P : B → Type 0} where
  onward :
      (R : A → Type 0) (m : M A) (f : A → M B) (s : Jvm) (o : Option (A × Jvm))
      → Agrees R m s o
      → ((a : A) → R a → Ends P (f a))
      → ((a : A) → Follows P (f a))
      → Agrees P (m >>= f) s (elim o [ none ↦ none | some (a, t) ↦ f a t ])
  onward R m f s none h ke kf = tt
  onward R m f s (some (a, t)) (inl r) ke kf = refused-Agrees P (m >>= f) s (f a t) ((ke a r).at t)
  onward R m f s (some (a, t)) (inr e) ke kf = carried P m f s t a (f a t) e ((kf a).at t)

  pub bind-Follows :
      (R : A → Type 0) (m : M A) (f : A → M B)
      → Follows R m
      → ((a : A) → R a → Ends P (f a))
      → ((a : A) → Follows P (f a))
      → Follows P (m >>= f)
  unfolding ◌>>=◌
  bind-Follows R m f km ke kf = record { at = λ s. onward R m f s (m s) (km.at s) ke kf }

  never : (a : A) (f : A → M B) → Never a → Ends P (f a)
  never a f h = elim h [ ]

  pub Follows-bind :
      (m : M A) (f : A → M B) → Follows Never m → ((a : A) → Follows P (f a)) → Follows P (m >>= f)
  Follows-bind m f km kf = bind-Follows Never m f km (λ a h. never a f h) kf

  ended :
      (f : A → M B) (o : Option (A × Jvm))
      → ((a : A) → Ends P (f a))
      → Refuses P (elim o [ none ↦ none | some (a, t) ↦ f a t ])
  ended f none kf = tt
  ended f (some (a, t)) kf = (kf a).at t

  pub Ends-bind : (m : M A) (f : A → M B) → ((a : A) → Ends P (f a)) → Ends P (m >>= f)
  unfolding ◌>>=◌
  Ends-bind m f kf = record { at = λ s. ended f (m s) kf }

  -- Nothing follows a fault.
  pub Ends-first : (m : M A) (f : A → M B) → Ends Never m → Ends P (m >>= f)
  unfolding ◌>>=◌
  Ends-first m f km = record { at = λ s. stopped (m s) (km.at s) }
    where
      stopped :
          (o : Option (A × Jvm))
          → Refuses Never o
          → Refuses P (elim o [ none ↦ none | some (a, t) ↦ f a t ])
      stopped none h = tt
      stopped (some (a, t)) h = elim h [ ]

-- A call that may give NULL, alone or beside a length.
module _ {A C : Type 0} {P : C → Type 0} where
  pub Follows-ptr :
      (m : M (Option A)) (f : Option A → M C)
      → Follows IsMissing m
      → Ends P (f none)
      → ((a : A) → Follows P (f (some a)))
      → Follows P (m >>= f)
  Follows-ptr m f km kn ks = bind-Follows IsMissing m f km ends cases
    where
      ends : (o : Option A) → IsMissing o → Ends P (f o)
      ends o h = subst (λ x. Ends P (f x)) (sym h.is_none) kn

      cases : (o : Option A) → Follows P (f o)
      cases none = Ends-Follows (f none) kn
      cases (some a) = ks a

  pub Ends-ptr :
      (m : M (Option A)) (f : Option A → M C)
      → Ends P (f none)
      → ((a : A) → Ends P (f (some a)))
      → Ends P (m >>= f)
  Ends-ptr m f kn ks = Ends-bind m f cases
    where
      cases : (o : Option A) → Ends P (f o)
      cases none = kn
      cases (some a) = ks a

module _ {A B C : Type 0} {P : C → Type 0} where
  pub Follows-array :
      (m : M (Option A × B)) (f : Option A × B → M C)
      → Follows IsMissingOf m
      → ((n : B) → Ends P (f (none, n)))
      → ((a : A) (n : B) → Follows P (f (some a, n)))
      → Follows P (m >>= f)
  Follows-array m f km kn ks = bind-Follows IsMissingOf m f km ends cases
    where
      ends : (x : Option A × B) → IsMissingOf x → Ends P (f x)
      ends (o, n) h = subst (λ x. Ends P (f (x, n))) (sym h.is_none) (kn n)

      cases : (x : Option A × B) → Follows P (f x)
      cases (none, n) = Ends-Follows (f (none, n)) (kn n)
      cases (some a, n) = ks a n

-- Where a result may be missing.
pub Follows-option :
    {A B : Type 0} {P : B → Type 0} (o : Option A) (n : M B) (f : A → M B)
    → Follows P n
    → ((a : A) → Follows P (f a))
    → Follows P (elim o [ none ↦ n | some a ↦ f a ])
Follows-option none n f kn kf = kn
Follows-option (some a) n f kn kf = kf a

pub Ends-option :
    {A B : Type 0} {P : B → Type 0} (o : Option A) (n : M B) (f : A → M B)
    → Ends P n
    → ((a : A) → Ends P (f a))
    → Ends P (elim o [ none ↦ n | some a ↦ f a ])
Ends-option none n f kn kf = kn
Ends-option (some a) n f kn kf = kf a

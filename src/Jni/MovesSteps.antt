-- ===== src/Jni/MovesSteps.antt =====
-- Calls by what they do to the two counts of critical regions: those that leave both alone, those that are
-- counted inside a region, and the two that open and close one.
use chain_wallet.Common.{ℕ, suc, ◌≡◌, refl, ap, ◌∙◌, Bool, true, false, none, some, arith, Option}
use chain_wallet.Jni.Machine.{Jvm, M, Ptr}
use chain_wallet.Jni.Calls.{
  unsafe_after, get_primitive_array_critical, release_primitive_array_critical,
}
use chain_wallet.Jni.Method.{critical_array_release}
use chain_wallet.Jni.Moves.{After, Quiet, Allowed, outside, Moves, still, held}

-- Code that gives what `k` says of the number that was open, and is quiet.
pub moved :
    {A : Type 0} (q : Bool) (n : ℕ) (k : A → ℕ) (m : M A)
    → ((s t : Jvm) (a : A)
        → m s ≡ some (a, t)
        → s.open_regions ≡ n
        → (t.open_regions ≡ k a) × Quiet q s t)
    → Moves q n k m
moved {A} q n k m counts = record { at = λ s h. cases s h (m s) refl }
  where
    cases : (s : Jvm) → s.open_regions ≡ n → (o : Option (A × Jvm)) → m s ≡ o → After q k s o
    cases s h none e = tt
    cases s h (some (a, t)) e = counts s t a e h

pub always_Quiet : (q : Bool) (s t : Jvm) → t.unsafe_calls ≡ s.unsafe_calls → Quiet q s t
always_Quiet false s t h = tt
always_Quiet true s t h = h

-- Code that leaves both numbers alone.
pub unmoved :
    {A : Type 0} {q : Bool} {n : ℕ} (m : M A)
    → ((s t : Jvm) (a : A)
        → m s ≡ some (a, t)
        → (t.open_regions ≡ s.open_regions) × (t.unsafe_calls ≡ s.unsafe_calls))
    → Moves q n (still n) m
unmoved {A} {q} {n} m same =
    moved q n (still n) m (λ s t a e h. let (o, u) = same s t a e in (o ∙ h, always_Quiet q s t u))

Allowed-Quiet :
    (q : Bool) (n : ℕ) (s t : Jvm)
    → Allowed q n
    → s.open_regions ≡ n
    → t.unsafe_calls ≡ unsafe_after s.open_regions s.unsafe_calls
    → Quiet q s t
Allowed-Quiet false n s t ok h e = tt
Allowed-Quiet true n s t outside h e = e ∙ ap (λ i. unsafe_after i s.unsafe_calls) h

-- A call that is counted if a region is open.
pub entering :
    {A : Type 0} {q : Bool} {n : ℕ} (m : M A)
    → Allowed q n
    → ((s t : Jvm) (a : A)
        → m s ≡ some (a, t)
        → (t.open_regions ≡ s.open_regions)
          × (t.unsafe_calls ≡ unsafe_after s.open_regions s.unsafe_calls))
    → Moves q n (still n) m
entering {A} {q} {n} m ok same =
    moved q n (still n) m
      (λ s t a e h. let (o, u) = same s t a e in (o ∙ h, Allowed-Quiet q n s t ok h u))

pub opened_regions :
    (n r l : ℕ) (p : Ptr) (s t : Jvm)
    → get_primitive_array_critical r s ≡ some (p, t)
    → s.open_regions ≡ n
    → (t.open_regions ≡ held n (p, l)) × (t.unsafe_calls ≡ s.unsafe_calls)
unfolding get_primitive_array_critical
opened_regions n r l none s t e h = (ground arith, ground arith)
opened_regions n r l (some a) s t e h = (ground arith, ground arith)

pub closed_regions :
    (n r a : ℕ) (s t : Jvm) (u : Unit {0})
    → critical_array_release r (some a) s ≡ some (u, t)
    → s.open_regions ≡ suc n
    → (t.open_regions ≡ n) × (t.unsafe_calls ≡ s.unsafe_calls)
unfolding critical_array_release release_primitive_array_critical
closed_regions n r a s t u e h = (ground arith, ground arith)

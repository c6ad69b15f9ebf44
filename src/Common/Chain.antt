-- ===== src/Common/Chain.antt =====
-- Chains of steps that may fault, as `do` blocks over `Option`.
use mathlib.Core.Path.{◌≡◌, refl}
use mathlib.Core.Option.{Option, none, some}
use mathlib.Core.List.{List, [], ◌∷◌, ◌++◌}
use Prim.Native.Nat.{ℕ, zero, suc, ◌≤◌}
use chain_wallet.Common.Lists.{length, take}
use native.Mathlib.Omega.{arith}

infixl 5 ◌>>=◌
abbrev pub ◌>>=◌ {ℓ κ} : {A : Type ℓ} {B : Type κ} → Option A → (A → Option B) → Option B
none >>= f = none
some a >>= f = f a

-- A copy of `n` elements from a pointer; a fault if fewer stand there.
abbrev pub copy {ℓ} : {A : Type ℓ} → ℕ → List A → Option (List A)
copy zero p = some []
copy (suc n) [] = none
copy (suc n) (x ∷ p) = do rest ← copy n p; some (x ∷ rest)

pub copy-append {ℓ} : {A : Type ℓ} (v rest : List A) → copy (length v) (v ++ rest) ≡ some v
copy-append [] rest = refl
copy-append (x ∷ v) rest = rw (copy-append v rest)

pub copy-take {ℓ} : {A : Type ℓ} (n : ℕ) (p : List A) → n ≤ length p → copy n p ≡ some (take n p)
copy-take zero p h = refl
copy-take (suc n) [] h = elim h [ ]
copy-take (suc n) (x ∷ p) h = rw (copy-take n p (omega arith))

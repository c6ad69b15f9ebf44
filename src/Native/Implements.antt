-- ===== src/Native/Implements.antt =====
-- When a run of native code implements an outcome: it returns, its reply is the one that is promised, and
-- what the app then sees is what is promised.
use chain_wallet.Common.{
  ◌≡◌, refl, Bool, true, false, Option, none, some, List, [], ◌∷◌, ◌&&◌, if◌then◌else◌,
}
use chain_wallet.Common.Chain.{◌>>=◌}
use chain_wallet.Jni.Machine
use chain_wallet.Jni.Machine.{Jvm, M}
use chain_wallet.Jni.Steps.{ready, bind_step}
use chain_wallet.Native.{Library, Request, Reply, perform}
use chain_wallet.Native.Spec.{spec}
use chain_wallet.Native.View.{view, Outcome, needs, choose}

-- No block is left behind, where that is promised.
abbrev pub Tidy : Bool → Jvm → Jvm → Type 0
Tidy true s t = t.blocks ≡ s.blocks
Tidy false s t = Unit

abbrev pub Runs : Bool → M Reply → Jvm → Outcome → Type 0
Runs b m s none = Unit
Runs b m s (some (reply, w)) =
    (t : Jvm) × (m (ready 0 s) ≡ some (reply, ready 0 t)) × (view t ≡ w) × Tidy b s t

pub record Implements (b : Bool) (m : M Reply) (s : Jvm) (o : Outcome) : Type 0 where
  pub runs : Runs b m s o

module _ {tidy : Bool} (m : M Reply) (s : Jvm) where
  pub needs-Implements :
      (b : Bool) (o : Outcome)
      → (b ≡ true → Implements tidy m s o)
      → Implements tidy m s (needs b o)
  needs-Implements true o h = h refl
  needs-Implements false o h = record { runs = tt }

  module _ {A : Type 0} where
    pub bind-Implements :
        (o : Option A) (f : A → Outcome)
        → ((a : A) → o ≡ some a → Implements tidy m s (f a))
        → Implements tidy m s (o >>= f)
    bind-Implements none f h = record { runs = tt }
    bind-Implements (some a) f h = h a refl

    pub choose-Implements :
        (o : Option A) (x : Outcome) (f : A → Outcome)
        → (o ≡ none → Implements tidy m s x)
        → ((a : A) → o ≡ some a → Implements tidy m s (f a))
        → Implements tidy m s (choose o x f)
    choose-Implements none x f k h = k refl
    choose-Implements (some a) x f k h = h a refl

  pub if-Implements :
      (b : Bool) (x y : Outcome)
      → (b ≡ true → Implements tidy m s x)
      → (b ≡ false → Implements tidy m s y)
      → Implements tidy m s (if b then x else y)
  if-Implements true x y k h = k refl
  if-Implements false x y k h = h refl

-- The reply of a wrapper that returns.
pub answer :
    {A : Type 0} {tidy : Bool} (f : A → Reply) (m : M A) (s t : Jvm) {a : A}
    → m (ready 0 s) ≡ some (a, ready 0 t)
    → Tidy tidy s t
    → Implements tidy (Machine.◌>>=◌ m λ b u. some (f b, u)) s (some (f a, view t))
answer f m s t e clean = record { runs = (t, bind_step _ _ e refl, refl, clean) }

-- The requests that are promised to leave no block. The others do in some cases or in all.
abbrev pub leaves_nothing : Request → Bool
leaves_nothing (Request.ripemd160 r) = false
leaves_nothing (Request.secp256k1_sign k m) = false
leaves_nothing (Request.secp256k1_eth_sign k m b) = false
leaves_nothing (Request.secp256k1_verify k g m) = false
leaves_nothing (Request.base58_decode_check r) = false
leaves_nothing (Request.base32_decode r b) = false
leaves_nothing _ = true

abbrev pub leave_nothing : List Request → Bool
leave_nothing [] = true
leave_nothing (q ∷ qs) = leaves_nothing q && leave_nothing qs

abbrev pub Meets : Library → Jvm → Request → Type 0
Meets l s q = Implements (leaves_nothing q) (perform l q) s (spec l q (view s))

-- ===== src/Native/Reach.antt =====
-- Histories of the app: native calls in any order with any arguments, whatever they return, and
-- between them what Java does and which requests for memory are to be refused. A call that is a
-- fault has no step.
use chain_wallet.Common.{ℕ, ◌≡◌, ◌∙◌, ap, sym, Bool, List, Option, some, Bytes, length}
use chain_wallet.Jni.Machine.{Jvm, lookup}
use chain_wallet.Jni.Steps.{with_array, set_array}
use chain_wallet.Jni.Strings.{with_string}
use chain_wallet.Jni.Valid.{IsValid, size_of-lookup}
use chain_wallet.Jni.Keeps.{Good, Good-refl, Good-trans, Ensures}
use chain_wallet.Jni.Changes.{bookkeeping-Good, push_array-Good, push_string-Good, update-Good}
use mathlib.Core.Path.{subst}
use chain_wallet.Native.{Library, Request, Reply, perform}
use chain_wallet.Native.Kept.{perform-Keeps}

-- A collection of garbage takes no step: references stay good.
pub data Step (l : Library) (s : Jvm) : Jvm → Type 0 where
  call : (q : Request) (reply : Reply) (t : Jvm) → perform l q s ≡ some (reply, t) → Step l s t
  memory : (denials : List Bool) → Step l s (record s { denials = denials })
  java_array : (v : Bytes) → Step l s (with_array v s)
  java_string : (t : Bytes) → Step l s (with_string t s)
  java_write :
      (r : ℕ) (old v : Bytes)
      → lookup r s.arrays ≡ some old
      → length v ≡ length old
      → Step l s (set_array r v s)

pub data Reach (l : Library) (s : Jvm) : Jvm → Type 0 where
  start : Reach l s s
  next : (t u : Jvm) → Reach l s t → Step l t u → Reach l s u

ensured :
    {A : Type 0} (P : Jvm → Type 0) (o : Option (A × Jvm)) {a : A} {t : Jvm}
    → o ≡ some (a, t)
    → Ensures P o
    → P t
ensured P o e h = subst (Ensures P) e h

module _ (l : Library) where
  Step-Good : (s t : Jvm) → IsValid s → Step l s t → Good s t
  Step-Good s t v (call q reply _ e) =
      ensured (Good s) (perform l q s) e ((perform-Keeps l q).at s v)
  Step-Good s _ v (memory ds) = bookkeeping-Good s v ds s.unsafe_calls
  Step-Good s _ v (java_array w) = push_array-Good s v w s.denials s.unsafe_calls
  Step-Good s _ v (java_string w) = push_string-Good s v w s.denials s.unsafe_calls
  Step-Good s _ v (java_write r old w e same) =
      update-Good s v r w s.blocks s.open_regions s.unsafe_calls
        (size_of-lookup s.arrays r old e ∙ ap some (sym same)) v.blocks_below v.regions v.fits

  Reach-Good : (s t : Jvm) → IsValid s → Reach l s t → Good s t
  Reach-Good s _ v start = Good-refl s v
  Reach-Good s u v (next t _ h step) =
      let g = Reach-Good s t v h in Good-trans s t u g (Step-Good t u g.valid step)

  -- Whatever native functions the app calls, in whatever order, with whatever references, and
  -- whichever requests for memory are refused, the machine stays valid: no two arrays, no two
  -- strings and no two live blocks have the same reference or address, the next ones are free, the
  -- elements that a block holds are as many as its array has, and as many critical regions are open
  -- as blocks of critical elements are held.
  pub Reach-IsValid : (s t : Jvm) → IsValid s → Reach l s t → IsValid t
  Reach-IsValid s t v h = (Reach-Good s t v h).valid

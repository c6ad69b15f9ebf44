-- ===== src/Native/Histories.antt =====
-- Critical regions and replies along the histories of Native/Reach.
use chain_wallet.Common.{◌≡◌, refl, ◌∙◌, ◌⊎◌, true, false, some}
use chain_wallet.Jni.Machine.{Jvm}
use chain_wallet.Jni.Valid.{IsValid}
use chain_wallet.Jni.Moves.{After, outside, still}
use mathlib.Core.Path.{subst}
use chain_wallet.Native.{Library, Request, Reply, perform}
use chain_wallet.Native.View.{View, view}
use chain_wallet.Native.Spec.{spec}
use chain_wallet.Native.Follows.{IsNull}
use chain_wallet.Native.Moves.{is_quiet, quiet-Moves, perform-Moves}
use chain_wallet.Native.Reach.{
  Step, Reach, start, next, call, memory, java_array, java_string, java_write, Reach-IsValid,
}
use chain_wallet.Native.Refusals.{perform_refused}

module _ (l : Library) where
  open_regions-perform :
      (q : Request) (s t : Jvm) (reply : Reply)
      → perform l q s ≡ some (reply, t)
      → t.open_regions ≡ s.open_regions
  open_regions-perform q s t reply e =
      (subst (After false (still s.open_regions) s) e ((perform-Moves l q).at s refl)).0

  -- Where no critical region is open, a native function that returns has made no JNI call inside a critical
  -- region, whichever requests for memory are refused. Those that take over two arrays in critical regions
  -- are excepted: HMAC, BLAKE2 with a key and the shared key of curve25519.
  pub unsafe_calls-perform :
      (q : Request) (s t : Jvm) (reply : Reply)
      → is_quiet q ≡ true
      → s.open_regions ≡ 0
      → perform l q s ≡ some (reply, t)
      → t.unsafe_calls ≡ s.unsafe_calls
  unsafe_calls-perform q s t reply quiet closed e =
      (subst (After true (still 0) s) e ((quiet-Moves outside l q quiet).at s closed)).1

  open_regions-Step : (s t : Jvm) → Step l s t → t.open_regions ≡ s.open_regions
  open_regions-Step s t (call q reply _ e) = open_regions-perform q s t reply e
  open_regions-Step s _ (memory ds) = refl
  open_regions-Step s _ (java_array w) = refl
  open_regions-Step s _ (java_string w) = refl
  open_regions-Step s _ (java_write r old w e same) = refl

  -- Along any history of native calls and of what Java does between them, whichever requests for memory
  -- are refused, the number of critical regions that are open between the calls does not change: each call
  -- that returns has closed those that it opened, on the error paths too.
  pub open_regions-Reach : (s t : Jvm) → Reach l s t → t.open_regions ≡ s.open_regions
  open_regions-Reach s _ start = refl
  open_regions-Reach s u (next t _ h step) = open_regions-Step t u step ∙ open_regions-Reach s t h

  -- A history of native calls and of what Java does between them starts in a valid machine with no critical
  -- region open. At any point of it a native function that is promised a reply and that returns gives NULL
  -- or just that reply, and with the reply the app sees what is promised; whichever requests for memory
  -- are refused. A verification is never answered with NULL.
  pub perform-Reach :
      (s t u : Jvm) (q : Request) {reply promised : Reply} {w : View}
      → IsValid s
      → s.open_regions ≡ 0
      → Reach l s t
      → perform l q t ≡ some (reply, u)
      → spec l q (view t) ≡ some (promised, w)
      → IsNull reply ⊎ ((reply ≡ promised) × (view u ≡ w))
  perform-Reach s t u q v closed h ran promise =
      perform_refused l t (Reach-IsValid l s t v h) (open_regions-Reach s t h ∙ closed) q ran
        promise

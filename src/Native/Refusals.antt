-- ===== src/Native/Refusals.antt =====
-- What the app gets from a native function where requests for memory are refused.
use chain_wallet.Common.{
  ℕ, ◌≡◌, refl, ap, ◌∙◌, sym, ◌⊎◌, inl, inr, Option, none, some, Bool, true, false, Bytes, length,
  ltb, arith, Bool-cases, Option-cases, [],
}
use chain_wallet.Jni.Machine.{Jvm, M, lookup, ◌>>=◌}
use chain_wallet.Jni.Calls.{get_array_length, get_byte_array_elements}
use chain_wallet.Jni.Method.{copy_array_to_c}
use chain_wallet.Jni.Steps.{ready}
use chain_wallet.Jni.Valid.{IsValid}
use chain_wallet.Jni.Changes.{bookkeeping-IsValid}
use chain_wallet.Jni.Follows.{granted, Agrees, Follows}
use chain_wallet.Secp256k1.{Ecdsa}
use chain_wallet.Secp256k1Jni
use chain_wallet.Secp256k1Jni.Follows as KeyFollows
use mathlib.Core.Path.{subst}
use chain_wallet.Native.{Library, Request, Reply, verdict, perform}
use chain_wallet.Native.Follows.{IsNull, is_other, as_verdict-Follows, perform-Follows}
use chain_wallet.Native.View.{View, view}
use chain_wallet.Native.Spec.{spec}
use chain_wallet.Native.Session.{perform_lem}

view_after : View → Option (Reply × Jvm) → View
view_after w none = w
view_after w (some (reply, t)) = view t

-- A run that follows the one that is granted all.
agreed :
    (P : Reply → Type 0) (m : M Reply) (s t u : Jvm) (reply promised : Reply)
    → Agrees P m s (some (reply, t))
    → m (granted s) ≡ some (promised, ready 0 u)
    → P reply ⊎ ((reply ≡ promised) × (view t ≡ view u))
unfolding ready view_after
agreed P m s t u reply promised (inl p) h = inl p
agreed P m s t u reply promised (inr a) h = inr (cc, ap (view_after (view t)) (sym a ∙ h))

followed :
    (P : Reply → Type 0) (m : M Reply) (s t u : Jvm) (reply promised : Reply)
    → Follows P m
    → m s ≡ some (reply, t)
    → m (granted s) ≡ some (promised, ready 0 u)
    → P reply ⊎ ((reply ≡ promised) × (view t ≡ view u))
followed P m s t u reply promised k e =
    agreed P m s t u reply promised (subst (Agrees P m s) e (k.at s))

-- `verify` of a message that is too long, and of one that is not.
module _ (e : Ecdsa) (k g m : ℕ) (s : Jvm) (v : Bytes) (given : lookup m s.arrays ≡ some v) where
  verify_long_view :
      {b : Bool} {t : Jvm}
      → ltb 32 (length v) ≡ true
      → Secp256k1Jni.verify e k g m s ≡ some (b, t)
      → (b ≡ false) × (view t ≡ view s)
  unfolding Secp256k1Jni.verify copy_array_to_c get_array_length get_byte_array_elements ◌>>=◌
  verify_long_view long ran = ground arith

  verify_is_unguarded :
      ltb 32 (length v) ≡ false
      → Secp256k1Jni.verify e k g m s ≡ KeyFollows.verify_unguarded e k g m s
  unfolding Secp256k1Jni.verify copy_array_to_c get_array_length get_byte_array_elements ◌>>=◌
  verify_is_unguarded short = ground arith

-- What a reply was made of.
finished :
    {A : Type 0} (f : A → Reply) (o : Option (A × Jvm)) {reply : Reply} {t : Jvm}
    → ◌≡◌ {A = Option (Reply × Jvm)}
        (elim o [ none ↦ none | some (a, x) ↦ some (f a, x) ])
        (some (reply, t))
    → (a : A) × (o ≡ some (a, t)) × (reply ≡ f a)
finished f none h = cc
finished f (some (a, x)) h = (a, cc, cc)

answered :
    {A : Type 0} (f : A → Reply) (m : M A) (s : Jvm) {reply : Reply} {t : Jvm}
    → (m >>= λ a x. some (f a, x)) s ≡ some (reply, t)
    → (a : A) × (m s ≡ some (a, t)) × (reply ≡ f a)
unfolding ◌>>=◌
answered f m s ran = finished f (m s) ran

same_start :
    {A B : Type 0} (m n : M A) (f : A → M B) (s : Jvm) → m s ≡ n s → (m >>= f) s ≡ (n >>= f) s
unfolding ◌>>=◌
same_start m n f s e = ap (λ o. elim o [ none ↦ none | some (b, u) ↦ f b u ]) e

-- The machine as it is, but that every request is granted.
granted-ready : (s : Jvm) → s.open_regions ≡ 0 → granted s ≡ ready 0 s
unfolding ready
granted-ready s closed = rw closed refl

module _ (l : Library) (s : Jvm) (valid : IsValid s) (closed : s.open_regions ≡ 0) where
  ready-IsValid : IsValid (ready 0 s)
  ready-IsValid =
      subst IsValid (granted-ready s closed) (bookkeeping-IsValid s valid [] s.unsafe_calls)

  -- The promised run, from the machine that grants all.
  promised_run :
      (q : Request) {promised : Reply} {w : View}
      → spec l q (view s) ≡ some (promised, w)
      → (u : Jvm) × (perform l q (granted s) ≡ some (promised, ready 0 u)) × (view u ≡ w)
  promised_run q promise =
      let (u, ran, seen) = perform_lem l q s ready-IsValid promise in
      (u, ap (perform l q) (granted-ready s closed) ∙ ran, seen)

  other_refused :
      (q : Request) {reply promised : Reply} {t : Jvm} {w : View}
      → is_other q ≡ true
      → perform l q s ≡ some (reply, t)
      → spec l q (view s) ≡ some (promised, w)
      → IsNull reply ⊎ ((reply ≡ promised) × (view t ≡ w))
  other_refused q {reply} {promised} {t} other ran promise =
      let (u, all, seen) = promised_run q promise in
      rw (sym seen)
        (followed IsNull (perform l q) s t u reply promised (perform-Follows l q other) ran all)

  module _ (k g m : ℕ) where
    no_message : lookup m s.arrays ≡ none → spec l (Request.secp256k1_verify k g m) (view s) ≡ none
    unfolding spec
    no_message e = rw e refl

    long_message :
        (v : Bytes)
        → lookup m s.arrays ≡ some v
        → ltb 32 (length v) ≡ true
        → spec l (Request.secp256k1_verify k g m) (view s) ≡ some (verdict false, view s)
    unfolding spec
    long_message v e long = rw (e, long) refl

  module _ (k g m : ℕ) {reply promised : Reply} {t : Jvm} {w : View}
      (ran : perform l (Request.secp256k1_verify k g m) s ≡ some (reply, t))
      (promise : spec l (Request.secp256k1_verify k g m) (view s) ≡ some (promised, w)) where
    long_refused :
        (v : Bytes)
        → lookup m s.arrays ≡ some v
        → ltb 32 (length v) ≡ true
        → (reply ≡ promised) × (view t ≡ w)
    unfolding perform
    long_refused v e long =
        let (b, went, made) = answered verdict (Secp256k1Jni.verify l.ecdsa k g m) s ran in
        let (denies, seen) = verify_long_view l.ecdsa k g m s v e long went in
        let told = sym promise ∙ long_message k g m v e long in
        let same : view s ≡ w = cc in (cc, seen ∙ same)

    short_refused :
        (v : Bytes)
        → lookup m s.arrays ≡ some v
        → ltb 32 (length v) ≡ false
        → IsNull reply ⊎ ((reply ≡ promised) × (view t ≡ w))
    unfolding perform
    short_refused v e short =
        let whole = Secp256k1Jni.verify l.ecdsa k g m in
        let unguarded = KeyFollows.verify_unguarded l.ecdsa k g m in
        let answer = λ (b : Bool) (x : Jvm). some (verdict b, x) in
        let here =
          same_start whole unguarded answer s (verify_is_unguarded l.ecdsa k g m s v e short) in
        let there =
          same_start whole unguarded answer (granted s)
            (verify_is_unguarded l.ecdsa k g m (granted s) v e short) in
        let (u, all, seen) = promised_run (Request.secp256k1_verify k g m) promise in
        rw (sym seen) (
          followed IsNull (unguarded >>= answer) s t u reply promised
            (as_verdict-Follows unguarded (KeyFollows.verify_unguarded-Follows l.ecdsa k g m))
            (sym here ∙ ran) (sym there ∙ all))

    verify_refused : IsNull reply ⊎ ((reply ≡ promised) × (view t ≡ w))
    verify_refused = elim (Option-cases (lookup m s.arrays)) [
      | inl e ↦ let refused = sym (no_message k g m e) ∙ promise in cc
      | inr (v, e) ↦ elim (Bool-cases (ltb 32 (length v))) [
        | inl long ↦ inr (long_refused v e long)
        | inr short ↦ short_refused v e short
      ]
    ]

  by_kind :
      (q : Request) {reply promised : Reply} {t : Jvm} {w : View}
      → (is_other q ≡ true) ⊎ (is_other q ≡ false)
      → perform l q s ≡ some (reply, t)
      → spec l q (view s) ≡ some (promised, w)
      → IsNull reply ⊎ ((reply ≡ promised) × (view t ≡ w))
  by_kind (Request.secp256k1_verify k g m) kind ran promise = verify_refused k g m ran promise
  by_kind q (inl other) ran promise = other_refused q other ran promise
  by_kind q (inr it) ran promise = cc

  -- Where requests for memory are refused, in whatever pattern, a native function that returns gives
  -- NULL or just what it promises where none is refused: the same reply, and the app sees the same
  -- arrays and strings. A verification is never answered with NULL. The machine is valid, and no
  -- critical region is open.
  pub perform_refused :
      (q : Request) {reply promised : Reply} {t : Jvm} {w : View}
      → perform l q s ≡ some (reply, t)
      → spec l q (view s) ≡ some (promised, w)
      → IsNull reply ⊎ ((reply ≡ promised) × (view t ≡ w))
  perform_refused q {reply} {promised} {t} {w} ran promise =
      by_kind q (Bool-cases (is_other q)) ran promise

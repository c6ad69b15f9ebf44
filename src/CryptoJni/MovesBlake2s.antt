-- ===== src/CryptoJni/MovesBlake2s.antt =====
-- `blake2s` of crypto-wrapper.c and the open critical regions. Where the library refuses, the critical
-- elements are given back as a copy, which does not return: so it closes its region wherever it
-- returns.
use chain_wallet.Common.{
  ℕ, suc, Bool, ◌<◌, ◌≡◌, refl, Option, none, some, arith, Bytes, ◌∙◌, Option-cases, inl, inr, sym,
}
use chain_wallet.Jni.Machine.{Jvm, M, Ptr, critical, find_block, lookup, ◌>>=◌, ◌>>◌, pure}
use chain_wallet.Jni.Memory.{calloc, free, read, write}
use chain_wallet.Jni.Calls.{
  get_array_length, get_primitive_array_critical, release_byte_array_elements,
}
use chain_wallet.Jni.Method.{copy_array_release, critical_array_to_c, critical_array_release}
use chain_wallet.Jni.Moves.{After, After-trans, Allowed, Moves, still, held}
use chain_wallet.Jni.MovesCalls.{critical_array_to_c-Moves, calloc-Moves, read-Moves}
use mathlib.Core.Path.{subst}
use chain_wallet.CryptoJni.MovesDigests.{bytes_moves, checked_bytes-Moves}
use chain_wallet.Primitives.{Primitives}
use chain_wallet.CryptoJni.Blake

-- A run of two parts, by the runs of the second from where the first ends.
from_here :
    {A B : Type 0} (q : Bool) (n : ℕ) (k : B → ℕ) (d : A → ℕ) (m : M A) (f : A → M B) (s : Jvm)
    → Moves q n d m
    → s.open_regions ≡ n
    → ((a : A) (t : Jvm) → m s ≡ some (a, t) → t.open_regions ≡ d a → After q k t (f a t))
    → After q k s ((m >>= f) s)
unfolding ◌>>=◌
from_here {A} {B} q n k d m f s km h each = cases (m s) refl (km.at s h)
  where
    cases :
        (o : Option (A × Jvm))
        → m s ≡ o
        → After q d s o
        → After q k s (elim o [ none ↦ none | some (a, t) ↦ f a t ])
    cases none e g = tt
    cases (some (a, t)) e (o, g) = After-trans q k s t (f a t) g (each a t e o)

-- The elements of a critical region, as long as they are not released.
record Region (r a : ℕ) (s : Jvm) : Type 0 where
  bytes : Bytes
  held : find_block a s.blocks ≡ some (record { address = a; kind = critical r; bytes = bytes })
  old : a < s.next_address

begins : (r a l : ℕ) (s t : Jvm) → critical_array_to_c r s ≡ some ((some a, l), t) → Region r a t
unfolding critical_array_to_c get_array_length get_primitive_array_critical ◌>>=◌
begins r a l s t e = elim (Option-cases (lookup r s.arrays)) [
  | inl none_there ↦ ground arith
  | inr (v, given) ↦ record { bytes = v; held = ground arith; old = ground arith }
]

calloc-Region :
    (r a n : ℕ) (p : Ptr) (s t : Jvm) → Region r a s → calloc n s ≡ some (p, t) → Region r a t
unfolding calloc
calloc-Region r a n p s t g e = record {
  bytes = g.bytes;
  held = let h = g.held in let o = g.old in ground arith;
  old = let o = g.old in ground arith;
}

read-Region :
    (r a n : ℕ) (p : Ptr) (m : Bytes) (s t : Jvm)
    → Region r a s
    → read p n s ≡ some (m, t)
    → Region r a t
unfolding read
read-Region r a n none m s t g e = cc
read-Region r a n (some b) m s t g e = let same : s ≡ t = ground arith in subst (Region r a) same g

not_a_copy : (r a : ℕ) (s : Jvm) → Region r a s → copy_array_release r (some a) s ≡ none
unfolding copy_array_release release_byte_array_elements
not_a_copy r a s g = let h = g.held in ground arith

-- A missing pointer is not read.
read-none : (n : ℕ) (s : Jvm) → read none n s ≡ none
unfolding read
read-none n s = refl

module _ (q : Bool) (c : Primitives) (r n i : ℕ) (ok : Allowed q i) where
  -- What follows the message that was read.
  ends : Ptr → Ptr → Option Bytes → M Ptr
  ends input output refused_or = elim refused_or [
    | none ↦ do copy_array_release r input; free output; pure none
    | some hash ↦ do write output hash; critical_array_release r input; Blake.checked_bytes n output
  ]

  ends-After :
      (a : ℕ) (output : Ptr) (o : Option Bytes) (s : Jvm)
      → Region r a s
      → s.open_regions ≡ suc i
      → After q (still i) s (ends (some a) output o s)
  unfolding ends ◌>>=◌ copy_array_release release_byte_array_elements
  ends-After a output none s g h = let no = not_a_copy r a s g in rw no tt
  ends-After a output (some hash) s g h = ends_well.at s h
    where
      ends_well : Moves q (suc i) (still i) (ends (some a) output (some hash))
      ends_well = search (checked_bytes-Moves, bytes_moves) depth 60 fits 4000

  taken :
      (p : Ptr) (l : ℕ) (s t : Jvm)
      → t.open_regions ≡ held i (p, l)
      → critical_array_to_c r s ≡ some ((p, l), t)
      → After q (still i) t (
          (calloc n >>= λ output.
          read p l >>= λ m. ends p output (Blake.given output (c.blake2s m n)))
            t)
  taken none l s t h e =
      from_here q i (still i) (still i) _ _ t (calloc-Moves n) h λ output u e' h'.
        from_here q i (still i) (still i) _ _ u (read-Moves none l) h'
          λ m v e'' h''. let no = sym (read-none l u) ∙ e'' in cc
  taken (some a) l s t h e =
      from_here q (suc i) (still i) (still (suc i)) _ _ t (calloc-Moves n) h λ output u e' h'.
        from_here q (suc i) (still i) (still (suc i)) _ _ u (read-Moves (some a) l) h'
          λ m v e'' h''.
            let g = begins r a l s t e in
            ends-After a output (Blake.given output (c.blake2s m n)) v
              (read-Region r a l _ m u v (calloc-Region r a n output t u g e') e'') h''

pub blake2s-Moves :
    {calm : Bool} {i : ℕ} (ok : Allowed calm i) (c : Primitives) (r n : ℕ)
    → Moves calm i (still i) (Blake.blake2s c r n)
unfolding Blake.blake2s ends
blake2s-Moves {calm} {i} ok c r n = record {
  at = λ s h.
      from_here calm i (still i) (held i) _ _ s (critical_array_to_c-Moves r ok) h
        λ x t e h'. taken calm c r n i ok (x.0) (x.1) s t h' e;
}

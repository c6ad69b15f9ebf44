-- ===== src/Jni/KeptHeap.antt =====
-- Each call of the C heap keeps the machine valid.
use chain_wallet.Common.{
  ℕ, ◌≡◌, refl, true, none, some, Bytes, length, leb, arith, Bool-cases, Option-cases, inl, inr,
  replicate, leb→le,
}
use chain_wallet.Jni.Machine.{Kind, heap, elements, critical, Jvm, Ptr, find_block, is_heap}
use chain_wallet.Jni.Memory.{denied, later, obtain, calloc, malloc, free, read, overwrite, write}
use chain_wallet.Jni.Valid.{opened_by, FitsKind, IsValid, length-overwrite}
use chain_wallet.Jni.Keeps.{Ensures, Good, Good-refl, Keeps}
use chain_wallet.Jni.Changes.{bookkeeping-Good, push_block-Good, remove-Good, replace-Good}

pub obtain-Keeps :
    (k : Kind) (w : Bytes) (s : Jvm)
    → IsValid s
    → FitsKind s.arrays k (length w)
    → opened_by k ≡ 0
    → Ensures (Good s) (obtain k w s)
obtain-Keeps k w s v fit shut = elim (Bool-cases (denied s.denials)) [
  | inl e ↦ rw (e, Ensures) (bookkeeping-Good s v (later s.denials) s.unsafe_calls)
  | inr e ↦
      rw (e, Ensures)
        (push_block-Good s v k w (later s.denials) s.open_regions s.unsafe_calls fit (omega arith))
]

pub calloc-Keeps : (n : ℕ) → Keeps (calloc n)
unfolding calloc
calloc-Keeps n = record { at = λ s v. obtain-Keeps heap (replicate n 0) s v tt refl }

pub malloc-Keeps : (n : ℕ) → Keeps (malloc n)
unfolding malloc
malloc-Keeps n = record { at = λ s v. obtain-Keeps heap (replicate n 0) s v tt refl }

is_heap-shut : (k : Kind) → is_heap k ≡ true → opened_by k ≡ 0
is_heap-shut heap h = refl
is_heap-shut (elements r) h = refl
is_heap-shut (critical r) h = cc

free_at : (a : ℕ) (s : Jvm) → IsValid s → Ensures (Good s) (free (some a) s)
unfolding free
free_at a s v = elim (Option-cases (find_block a s.blocks)) [
  | inl e ↦ rw (e, Ensures) tt
  | inr (b, e) ↦ elim (Bool-cases (is_heap b.kind)) [
    | inl h ↦ rw (e, h, Ensures) (remove-Good s v a b e (is_heap-shut b.kind h))
    | inr h ↦ rw (e, h, Ensures) tt
  ]
]

pub free-Keeps : (p : Ptr) → Keeps (free p)
unfolding free
free-Keeps none = record { at = Good-refl }
free-Keeps (some a) = record { at = free_at a }

read_at : (a n : ℕ) (s : Jvm) → IsValid s → Ensures (Good s) (read (some a) n s)
unfolding read
read_at a n s v = elim (Option-cases (find_block a s.blocks)) [
  | inl e ↦ rw (e, Ensures) tt
  | inr (b, e) ↦ elim (Bool-cases (leb n (length b.bytes))) [
    | inl h ↦ rw (e, h, Ensures) (Good-refl s v)
    | inr h ↦ rw (e, h, Ensures) tt
  ]
]

pub read-Keeps : (p : Ptr) (n : ℕ) → Keeps (read p n)
unfolding read
read-Keeps none n = record { at = λ s v. tt }
read-Keeps (some a) n = record { at = read_at a n }

write_at : (a : ℕ) (w : Bytes) (s : Jvm) → IsValid s → Ensures (Good s) (write (some a) w s)
unfolding write
write_at a w s v = elim (Option-cases (find_block a s.blocks)) [
  | inl e ↦ rw (e, Ensures) tt
  | inr (b, e) ↦ elim (Bool-cases (leb (length w) (length b.bytes))) [
    | inl h ↦
        rw (e, h, Ensures)
          (replace-Good s v a (overwrite w b.bytes) b e (length-overwrite w b.bytes (leb→le _ _ h)))
    | inr h ↦ rw (e, h, Ensures) tt
  ]
]

pub write-Keeps : (p : Ptr) (w : Bytes) → Keeps (write p w)
unfolding write
write-Keeps none w = record { at = λ s v. tt }
write-Keeps (some a) w = record { at = write_at a w }

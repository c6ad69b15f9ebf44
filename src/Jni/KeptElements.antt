-- ===== src/Jni/KeptElements.antt =====
-- Each call of JNI that takes an array over or gives it back keeps the machine valid.
use chain_wallet.Common.{
  ℕ, ◌+◌, ◌-◌, ◌≡◌, true, none, some, length, arith, Bool-cases, Option-cases, inl, inr,
}
use chain_wallet.Jni.Machine.{
  Kind, heap, elements, critical, Block, Store, Jvm, Ptr, lookup, update, find_block, remove_block,
  is_elements, is_critical,
}
use chain_wallet.Jni.Memory.{denied, later}
use chain_wallet.Jni.Valid.{
  opened_by, open_blocks, size_of, FitsKind, IsValid, size_of-lookup, BlocksBelow-remove,
  open_blocks-remove, Fits-remove, Fits-find,
}
use chain_wallet.Jni.Calls.{
  get_array_length, get_byte_array_region, get_byte_array_elements, get_primitive_array_critical,
  release_byte_array_elements, release_primitive_array_critical,
}
use chain_wallet.Jni.Keeps.{Ensures, Good, Keeps}
use chain_wallet.Jni.Changes.{bookkeeping-Good, push_block-Good, update-Good}

get_array_length_at : (r : ℕ) (s : Jvm) → IsValid s → Ensures (Good s) (get_array_length r s)
unfolding get_array_length
get_array_length_at r s v = elim (Option-cases (lookup r s.arrays)) [
  | inl e ↦ rw (e, Ensures) tt
  | inr (w, e) ↦ rw (e, Ensures) (bookkeeping-Good s v s.denials _)
]

pub get_array_length-Keeps : (r : ℕ) → Keeps (get_array_length r)
get_array_length-Keeps r = record { at = get_array_length_at r }

region_at : (r : ℕ) (s : Jvm) → IsValid s → Ensures (Good s) (get_byte_array_region r s)
unfolding get_byte_array_region
region_at r s v = elim (Option-cases (lookup r s.arrays)) [
  | inl e ↦ rw (e, Ensures) tt
  | inr (w, e) ↦ rw (e, Ensures) (bookkeeping-Good s v s.denials _)
]

pub get_byte_array_region-Keeps : (r : ℕ) → Keeps (get_byte_array_region r)
get_byte_array_region-Keeps r = record { at = region_at r }

elements_at : (r : ℕ) (s : Jvm) → IsValid s → Ensures (Good s) (get_byte_array_elements r s)
unfolding get_byte_array_elements
elements_at r s v = elim (Option-cases (lookup r s.arrays)) [
  | inl e ↦ rw (e, Ensures) tt
  | inr (w, e) ↦ elim (Bool-cases (denied s.denials)) [
    | inl d ↦ rw (e, d, Ensures) (bookkeeping-Good s v (later s.denials) _)
    | inr d ↦
        rw (e, d, Ensures)
          (push_block-Good s v (elements r) w (later s.denials) s.open_regions _
            (size_of-lookup s.arrays r w e) (omega arith))
  ]
]

pub get_byte_array_elements-Keeps : (r : ℕ) → Keeps (get_byte_array_elements r)
get_byte_array_elements-Keeps r = record { at = elements_at r }

critical_at : (r : ℕ) (s : Jvm) → IsValid s → Ensures (Good s) (get_primitive_array_critical r s)
unfolding get_primitive_array_critical
critical_at r s v = elim (Option-cases (lookup r s.arrays)) [
  | inl e ↦ rw (e, Ensures) tt
  | inr (w, e) ↦ elim (Bool-cases (denied s.denials)) [
    | inl d ↦ rw (e, d, Ensures) (bookkeeping-Good s v (later s.denials) s.unsafe_calls)
    | inr d ↦
        rw (e, d, Ensures)
          (push_block-Good s v (critical r) w (later s.denials) (s.open_regions + 1) s.unsafe_calls
            (size_of-lookup s.arrays r w e) (omega arith))
  ]
]

pub get_primitive_array_critical-Keeps : (r : ℕ) → Keeps (get_primitive_array_critical r)
get_primitive_array_critical-Keeps r = record { at = critical_at r }

-- What the kind of a block says of it.
is_elements-fit :
    (m : Store) (r : ℕ) (k : Kind) (n : ℕ)
    → is_elements r k ≡ true
    → FitsKind m k n
    → (size_of r m ≡ some n) × (opened_by k ≡ 0)
is_elements-fit m r heap n h f = cc
is_elements-fit m r (elements q) n h f = ground arith
is_elements-fit m r (critical q) n h f = cc

is_critical-fit :
    (m : Store) (r : ℕ) (k : Kind) (n : ℕ)
    → is_critical r k ≡ true
    → FitsKind m k n
    → (size_of r m ≡ some n) × (opened_by k ≡ 1)
is_critical-fit m r heap n h f = cc
is_critical-fit m r (elements q) n h f = cc
is_critical-fit m r (critical q) n h f = ground arith

module _ (r a : ℕ) (s : Jvm) (v : IsValid s) where
  put_back-Good :
      (b : Block) (n u : ℕ)
      → find_block a s.blocks ≡ some b
      → size_of r s.arrays ≡ some (length b.bytes)
      → n ≡ open_blocks (remove_block a s.blocks)
      → Good s (record s {
        arrays = update r b.bytes s.arrays;
        blocks = remove_block a s.blocks;
        open_regions = n;
        unsafe_calls = u;
      })
  put_back-Good b n u e size count =
      update-Good s v r b.bytes (remove_block a s.blocks) n u size
        (BlocksBelow-remove a s.next_address s.blocks v.blocks_below) count
        (Fits-remove s.arrays a s.blocks v.fits)

  release_elements_at : Ensures (Good s) (release_byte_array_elements r (some a) s)
  unfolding release_byte_array_elements
  release_elements_at = elim (Option-cases (find_block a s.blocks)) [
    | inl e ↦ rw (e, Ensures) tt
    | inr (b, e) ↦ elim (Bool-cases (is_elements r b.kind)) [
      | inl h ↦
          let fit =
            is_elements-fit s.arrays r b.kind (length b.bytes) h
              (Fits-find s.arrays a s.blocks b e v.fits) in
          let left = open_blocks-remove a s.blocks b e in
          rw (e, h, Ensures)
            (put_back-Good b s.open_regions _ e fit.0 (omega (arith, v.regions, fit.1, left)))
      | inr h ↦ rw (e, h, Ensures) tt
    ]
  ]

  release_critical_at : Ensures (Good s) (release_primitive_array_critical r (some a) s)
  unfolding release_primitive_array_critical
  release_critical_at = elim (Option-cases (find_block a s.blocks)) [
    | inl e ↦ rw (e, Ensures) tt
    | inr (b, e) ↦ elim (Bool-cases (is_critical r b.kind)) [
      | inl h ↦
          let fit =
            is_critical-fit s.arrays r b.kind (length b.bytes) h
              (Fits-find s.arrays a s.blocks b e v.fits) in
          let left = open_blocks-remove a s.blocks b e in
          rw (e, h, Ensures)
            (put_back-Good b (s.open_regions - 1) s.unsafe_calls e fit.0
              (omega (arith, v.regions, fit.1, left)))
      | inr h ↦ rw (e, h, Ensures) tt
    ]
  ]

pub release_byte_array_elements-Keeps : (r : ℕ) (p : Ptr) → Keeps (release_byte_array_elements r p)
unfolding release_byte_array_elements
release_byte_array_elements-Keeps r none = record { at = λ s v. tt }
release_byte_array_elements-Keeps r (some a) = record { at = release_elements_at r a }

pub release_primitive_array_critical-Keeps :
    (r : ℕ) (p : Ptr) → Keeps (release_primitive_array_critical r p)
unfolding release_primitive_array_critical
release_primitive_array_critical-Keeps r none = record { at = λ s v. tt }
release_primitive_array_critical-Keeps r (some a) = record { at = release_critical_at r a }

-- ===== src/Jni/Steps.antt =====
-- One lemma for each call of the wrappers, in a machine that is `ready`: no request for memory is
-- refused. They are chained by `bind_step`.
use chain_wallet.Common.{
  ℕ, ◌+◌, ◌≡◌, refl, ap, ◌∙◌, Option, none, some, [], ◌∷◌, Bytes, length, replicate, leb, suc, take,
  ◌≤◌, take_all, drop_all, true, arith, append-nil,
}
use chain_wallet.Jni.Machine.{
  lift, Kind, heap, elements, critical, Block, Store, Jvm, M, ◌>>=◌, lookup, update, find_block,
  remove_block, replace_bytes,
}
use chain_wallet.Jni.Memory.{calloc, malloc, free, read, write}
use chain_wallet.Jni.Calls.{
  get_array_length, get_byte_array_elements, get_primitive_array_critical,
  release_byte_array_elements, release_primitive_array_critical, new_byte_array,
  set_byte_array_region,
}
use chain_wallet.Jni.Method.{
  copy_array_to_c, copy_array_release, critical_array_to_c, critical_array_release,
}

-- No request is refused, and `n` critical regions are open.
unfoldable pub ready : ℕ → Jvm → Jvm
ready n s = record s { denials = []; open_regions = n }

abbrev pub block : ℕ → Kind → Bytes → Block
block a k v = record { address = a; kind = k; bytes = v }

abbrev pub with_block : Kind → Bytes → Jvm → Jvm
with_block k v s = record s {
  blocks = block s.next_address k v ∷ s.blocks;
  next_address = s.next_address + 1;
}

abbrev pub without_block : ℕ → Jvm → Jvm
without_block a s = record s { blocks = remove_block a s.blocks }

abbrev pub with_bytes : ℕ → Bytes → Jvm → Jvm
with_bytes a v s = record s { blocks = replace_bytes a v s.blocks }

-- One more call inside a critical region.
abbrev pub counted : Jvm → Jvm
counted s = record s { unsafe_calls = s.unsafe_calls + 1 }

abbrev pub with_array : Bytes → Jvm → Jvm
with_array v s = record s { arrays = (s.next_ref, v) ∷ s.arrays; next_ref = s.next_ref + 1 }

abbrev pub set_array : ℕ → Bytes → Jvm → Jvm
set_array r v s = record s { arrays = update r v s.arrays }

-- What a call leaves behind that has obtained `k` blocks and given them all up.
abbrev pub used : ℕ → Jvm → Jvm
used k s = record s { next_address = s.next_address + k }

pub bind_step :
    {A B : Type 0} (m : M A) (f : A → M B) {s t : Jvm} {a : A} {x : Option (B × Jvm)}
    → m s ≡ some (a, t)
    → f a t ≡ x
    → (m >>= f) s ≡ x
unfolding ◌>>=◌
bind_step m f e h = ap (λ o. elim o [ none ↦ none | some (b, u) ↦ f b u ]) e ∙ h

pub bind_fault : {A B : Type 0} (m : M A) (f : A → M B) {s : Jvm} → m s ≡ none → (m >>= f) s ≡ none
unfolding ◌>>=◌
bind_fault m f e = ap (λ o. elim o [ none ↦ none | some (b, u) ↦ f b u ]) e

pub update-lookup : (r : ℕ) (v : Bytes) (m : Store) → lookup r m ≡ some v → update r v m ≡ m
update-lookup r v [] h = refl
update-lookup r v ((j, w) ∷ m) h = ground (arith, update-lookup r v m)

pub leb_refl : (n : ℕ) → leb n n ≡ true
leb_refl n = ground arith

pub lift_step : {A : Type 0} (o : Option A) (a : A) (s : Jvm) → o ≡ some a → lift o s ≡ some (a, s)
lift_step o a s h = rw h refl

pub calloc_step :
    (n k : ℕ) (s : Jvm)
    → calloc k (ready n s) ≡ some (some s.next_address, ready n (with_block heap (replicate k 0) s))
unfolding calloc ready
calloc_step n k s = refl

pub malloc_step :
    (n k : ℕ) (s : Jvm)
    → malloc k (ready n s) ≡ some (some s.next_address, ready n (with_block heap (replicate k 0) s))
unfolding malloc ready
malloc_step n k s = refl

pub copy_step :
    (r : ℕ) (v : Bytes) (s : Jvm)
    → lookup r s.arrays ≡ some v
    → copy_array_to_c r (ready 0 s)
      ≡ some ((some s.next_address, length v), ready 0 (with_block (elements r) v s))
unfolding copy_array_to_c ready get_array_length get_byte_array_elements ◌>>=◌
copy_step r v s h = ground arith

-- Outside a critical region the call that opens one is not counted.
pub critical_step :
    (r : ℕ) (v : Bytes) (s : Jvm)
    → lookup r s.arrays ≡ some v
    → critical_array_to_c r (ready 0 s)
      ≡ some ((some s.next_address, length v), ready 1 (with_block (critical r) v s))
unfolding critical_array_to_c ready get_array_length get_primitive_array_critical ◌>>=◌
critical_step r v s h = ground arith

-- Inside one `GetArrayLength` is counted.
pub critical_again_step :
    (r : ℕ) (v : Bytes) (s : Jvm)
    → lookup r s.arrays ≡ some v
    → critical_array_to_c r (ready 1 s)
      ≡ some ((some s.next_address, length v), ready 2 (counted (with_block (critical r) v s)))
unfolding critical_array_to_c ready get_array_length get_primitive_array_critical ◌>>=◌
critical_again_step r v s h = ground arith

pub read_step :
    (n a k : ℕ) (b : Block) (s : Jvm)
    → find_block a s.blocks ≡ some b
    → length b.bytes ≡ k
    → read (some a) k (ready n s) ≡ some (b.bytes, ready n s)
unfolding read ready
read_step n a k b s h e = ground (arith, take_all k b.bytes)

-- A part of a block.
pub read_part_step :
    (n a k : ℕ) (b : Block) (s : Jvm)
    → find_block a s.blocks ≡ some b
    → k ≤ length b.bytes
    → read (some a) k (ready n s) ≡ some (take k b.bytes, ready n s)
unfolding read ready
read_part_step n a k b s h e = ground arith

pub write_step :
    (n a : ℕ) (b : Block) (v : Bytes) (s : Jvm)
    → find_block a s.blocks ≡ some b
    → length v ≡ length b.bytes
    → write (some a) v (ready n s) ≡ some (tt, ready n (with_bytes a v s))
unfolding write ready
write_step n a b v s h e = ground (arith, drop_all (length v) b.bytes, append-nil v)

pub free_step :
    (n a a' : ℕ) (v : Bytes) (s : Jvm)
    → find_block a s.blocks ≡ some (block a' heap v)
    → free (some a) (ready n s) ≡ some (tt, ready n (without_block a s))
unfolding free ready
free_step n a a' v s h = ground arith

pub copy_release_step :
    (r a a' : ℕ) (v : Bytes) (s : Jvm)
    → find_block a s.blocks ≡ some (block a' (elements r) v)
    → copy_array_release r (some a) (ready 0 s)
      ≡ some (tt, ready 0 (set_array r v (without_block a s)))
unfolding copy_array_release release_byte_array_elements ready
copy_release_step r a a' v s h = ground arith

-- Critical elements that are given back as if they were a copy.
pub copy_release_fault :
    (n r q a a' : ℕ) (v : Bytes) (s : Jvm)
    → find_block a s.blocks ≡ some (block a' (critical q) v)
    → copy_array_release r (some a) (ready n s) ≡ none
unfolding copy_array_release release_byte_array_elements ready
copy_release_fault n r q a a' v s h = ground arith

pub critical_release_step :
    (n r a a' : ℕ) (v : Bytes) (s : Jvm)
    → find_block a s.blocks ≡ some (block a' (critical r) v)
    → critical_array_release r (some a) (ready (suc n) s)
      ≡ some (tt, ready n (set_array r v (without_block a s)))
unfolding critical_array_release release_primitive_array_critical ready
critical_release_step n r a a' v s h = ground arith

pub new_array_step :
    (k : ℕ) (s : Jvm)
    → new_byte_array k (ready 0 s) ≡ some (some s.next_ref, ready 0 (with_array (replicate k 0) s))
unfolding new_byte_array ready
new_array_step k s = refl

pub set_region_step :
    (r k a : ℕ) (b : Block) (old : Bytes) (s : Jvm)
    → find_block a s.blocks ≡ some b
    → lookup r s.arrays ≡ some old
    → length b.bytes ≡ k
    → length old ≡ k
    → set_byte_array_region (some r) k (some a) (ready 0 s)
      ≡ some (tt, ready 0 (set_array r b.bytes s))
unfolding set_byte_array_region ready
set_region_step r k a b old s h l e f =
    ground (arith, take_all k b.bytes, drop_all (length b.bytes) old, append-nil b.bytes)

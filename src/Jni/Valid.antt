-- ===== src/Jni/Valid.antt =====
-- What a valid machine is, and the lemmas on its stores and blocks.
use chain_wallet.Common.{
  ℕ, ◌+◌, ◌≤◌, ◌<◌, ◌≡◌, refl, ap, ◌∙◌, sym, true, Option, none, some, List, [], ◌∷◌, Bytes, length,
  ◌==◌, if◌then◌else◌, arith, Bool-cases, inl, inr, length-append, length-drop,
}
use chain_wallet.Jni.Machine.{
  Kind, heap, elements, critical, Block, Store, Jvm, lookup, update, find_block, remove_block,
  replace_bytes,
}
use mathlib.Core.Path.{subst}
use chain_wallet.Jni.Memory.{overwrite}

-- The references of a store fall, from below a bound: so no two are the same.
abbrev pub Below : ℕ → Store → Type 0
Below n [] = Unit
Below n ((k, v) ∷ m) = (k < n) × Below k m

abbrev pub BlocksBelow : ℕ → List Block → Type 0
BlocksBelow n [] = Unit
BlocksBelow n (b ∷ bs) = (b.address < n) × BlocksBelow b.address bs

abbrev pub opened_by : Kind → ℕ
opened_by heap = 0
opened_by (elements r) = 0
opened_by (critical r) = 1

abbrev pub open_blocks : List Block → ℕ
open_blocks [] = 0
open_blocks (b ∷ bs) = opened_by b.kind + open_blocks bs

abbrev pub size_of : ℕ → Store → Option ℕ
size_of r [] = none
size_of r ((k, v) ∷ m) = if r == k then some (length v) else size_of r m

-- A block with the elements of an array is as long as the array.
abbrev pub FitsKind : Store → Kind → ℕ → Type 0
FitsKind m heap n = Unit
FitsKind m (elements r) n = size_of r m ≡ some n
FitsKind m (critical r) n = size_of r m ≡ some n

abbrev pub Fits : Store → List Block → Type 0
Fits m [] = Unit
Fits m (b ∷ bs) = FitsKind m b.kind (length b.bytes) × Fits m bs

pub record IsValid (s : Jvm) : Type 0 where
  pub arrays_below : Below s.next_ref s.arrays
  pub strings_below : Below s.next_ref s.strings
  pub blocks_below : BlocksBelow s.next_address s.blocks
  pub regions : s.open_regions ≡ open_blocks s.blocks
  pub fits : Fits s.arrays s.blocks

-- Stores.
pub Below-le : (m : Store) (n k : ℕ) → n ≤ k → Below n m → Below k m
Below-le [] n k h b = tt
Below-le ((j, v) ∷ m) n k h (hj, b) = (omega arith, b)

pub Below-update : (r n : ℕ) (v : Bytes) (m : Store) → Below n m → Below n (update r v m)
Below-update r n v [] b = tt
Below-update r n v ((j, w) ∷ m) (hj, b) = ground (arith, Below-update r j v m)

pub lookup-free : (m : Store) (n r : ℕ) → n ≤ r → Below n m → lookup r m ≡ none
lookup-free [] n r h b = refl
lookup-free ((j, v) ∷ m) n r h (hj, b) = ground (arith, lookup-free m j r)

pub size_of-free : (m : Store) (n r : ℕ) → n ≤ r → Below n m → size_of r m ≡ none
size_of-free [] n r h b = refl
size_of-free ((j, v) ∷ m) n r h (hj, b) = ground (arith, size_of-free m j r)

pub size_of-lookup :
    (m : Store) (r : ℕ) (v : Bytes) → lookup r m ≡ some v → size_of r m ≡ some (length v)
size_of-lookup [] r v h = cc
size_of-lookup ((j, w) ∷ m) r v h = ground (arith, size_of-lookup m r v)

-- What stood in a store stays in it when a new reference comes.
pub size_of-push :
    (m : Store) (n q i : ℕ) (w : Bytes)
    → Below n m
    → size_of q m ≡ some i
    → size_of q ((n, w) ∷ m) ≡ some i
size_of-push m n q i w b h = ground (arith, size_of-free m n q)

pub lookup-push :
    (m : Store) (n q : ℕ) (w x : Bytes)
    → Below n m
    → lookup q m ≡ some x
    → lookup q ((n, w) ∷ m) ≡ some x
lookup-push m n q w x b h = ground (arith, lookup-free m n q)

-- A write of the same length changes no size.
pub size_of-update :
    (m : Store) (r q : ℕ) (v : Bytes)
    → size_of r m ≡ some (length v)
    → size_of q (update r v m) ≡ size_of q m
size_of-update [] r q v h = refl
size_of-update ((j, w) ∷ m) r q v h = ground (arith, size_of-update m r q v)

-- Blocks.
pub BlocksBelow-le : (bs : List Block) (n k : ℕ) → n ≤ k → BlocksBelow n bs → BlocksBelow k bs
BlocksBelow-le [] n k h b = tt
BlocksBelow-le (c ∷ bs) n k h (hc, b) = (omega arith, b)

pub BlocksBelow-remove :
    (a n : ℕ) (bs : List Block) → BlocksBelow n bs → BlocksBelow n (remove_block a bs)
BlocksBelow-remove a n [] h = tt
BlocksBelow-remove a n (b ∷ bs) (hb, h) = elim (Bool-cases (a == b.address)) [
  | inl e ↦ rw e (BlocksBelow-le bs b.address n (omega arith) h)
  | inr e ↦ rw e (hb, BlocksBelow-remove a b.address bs h)
]

pub BlocksBelow-replace :
    (a n : ℕ) (v : Bytes) (bs : List Block)
    → BlocksBelow n bs
    → BlocksBelow n (replace_bytes a v bs)
BlocksBelow-replace a n v [] h = tt
BlocksBelow-replace a n v (b ∷ bs) (hb, h) = ground (arith, BlocksBelow-replace a b.address v bs)

pub open_blocks-remove :
    (a : ℕ) (bs : List Block) (b : Block)
    → find_block a bs ≡ some b
    → open_blocks bs ≡ opened_by b.kind + open_blocks (remove_block a bs)
open_blocks-remove a [] b h = cc
open_blocks-remove a (c ∷ bs) b h = ground (arith, open_blocks-remove a bs b)

pub open_blocks-replace :
    (a : ℕ) (v : Bytes) (bs : List Block) → open_blocks (replace_bytes a v bs) ≡ open_blocks bs
open_blocks-replace a v [] = refl
open_blocks-replace a v (b ∷ bs) = ground (arith, open_blocks-replace a v bs)

pub Fits-remove : (m : Store) (a : ℕ) (bs : List Block) → Fits m bs → Fits m (remove_block a bs)
Fits-remove m a [] h = tt
Fits-remove m a (b ∷ bs) (hb, h) = ground (arith, Fits-remove m a bs)

found_here :
    (a : ℕ) (c : Block) (bs : List Block) (b : Block)
    → (a == c.address) ≡ true
    → find_block a (c ∷ bs) ≡ some b
    → c ≡ b
found_here a c bs b h e = ground arith

pub Fits-find :
    (m : Store) (a : ℕ) (bs : List Block) (b : Block)
    → find_block a bs ≡ some b
    → Fits m bs
    → FitsKind m b.kind (length b.bytes)
Fits-find m a [] b e h = cc
Fits-find m a (c ∷ bs) b e (hc, h) = elim (Bool-cases (a == c.address)) [
  | inl same ↦ subst (λ x. FitsKind m x.kind (length x.bytes)) (found_here a c bs b same e) hc
  | inr other ↦ Fits-find m a bs b (ground arith) h
]

pub Fits-replace :
    (m : Store) (a : ℕ) (v : Bytes) (bs : List Block) (b : Block)
    → find_block a bs ≡ some b
    → length v ≡ length b.bytes
    → Fits m bs
    → Fits m (replace_bytes a v bs)
Fits-replace m a v [] b e l h = tt
Fits-replace m a v (c ∷ bs) b e l (hc, h) = elim (Bool-cases (a == c.address)) [
  | inl same ↦
      let here = ap (λ (x : Block). length x.bytes) (found_here a c bs b same e) in
      rw same (rw (l ∙ sym here) hc, h)
  | inr other ↦ rw other (hc, Fits-replace m a v bs b (ground arith) l h)
]

FitsKind-change :
    (m m' : Store) (k : Kind) (n : ℕ)
    → ((r i : ℕ) → size_of r m ≡ some i → size_of r m' ≡ some i)
    → FitsKind m k n
    → FitsKind m' k n
FitsKind-change m m' heap n keep h = tt
FitsKind-change m m' (elements r) n keep h = keep r n h
FitsKind-change m m' (critical r) n keep h = keep r n h

pub Fits-change :
    (m m' : Store) (bs : List Block)
    → ((r i : ℕ) → size_of r m ≡ some i → size_of r m' ≡ some i)
    → Fits m bs
    → Fits m' bs
Fits-change m m' [] keep h = tt
Fits-change m m' (b ∷ bs) keep (hb, h) =
    (FitsKind-change m m' b.kind (length b.bytes) keep hb, Fits-change m m' bs keep h)

pub length-overwrite :
    (v old : Bytes) → length v ≤ length old → length (overwrite v old) ≡ length old
length-overwrite v old h = length-append v _ ∙ omega (arith, length-drop (length v) old)

-- ===== src/Jni/Machine.antt =====
-- The state that the wrappers in crypto/*/src/main/cpp run on: Java byte arrays and strings, and
-- the blocks of C memory that are live. A fault (`none`) is what C or JNI leaves undefined: a read
-- or a write past a block, a NULL pointer that is used, a release of the wrong kind.
use chain_wallet.Common.{
  ℕ, Bool, true, false, Option, none, some, List, [], ◌∷◌, Bytes, ◌==◌, if◌then◌else◌,
}

-- How a block was obtained: by malloc or calloc, as the elements of an array, or as its critical
-- elements. The number is the array's reference.
pub data Kind : Type 0 where
  heap : Kind
  elements : ℕ → Kind
  critical : ℕ → Kind

pub record Block : Type 0 where
  pub address : ℕ
  pub kind : Kind
  pub bytes : Bytes

-- A pointer or a reference; `none` is NULL.
abbrev pub Ptr : Type 0
Ptr = Option ℕ

abbrev pub Store : Type 0
Store = List (ℕ × Bytes)

-- `denials` says of each request for memory to come whether it is refused; past its end none is.
-- `open_regions` counts the critical regions that are open, and `unsafe_calls` the JNI calls that
-- were made while one was.
pub record Jvm : Type 0 where
  pub arrays : Store
  pub strings : Store
  pub next_ref : ℕ
  pub blocks : List Block
  pub next_address : ℕ
  pub denials : List Bool
  pub open_regions : ℕ
  pub unsafe_calls : ℕ

abbrev pub M : Type 0 → Type 0
M A = Jvm → Option (A × Jvm)

abbrev pub pure : {A : Type 0} → A → M A
pure a s = some (a, s)

abbrev pub fault : {A : Type 0} → M A
fault s = none

-- A step that may fault and leaves the machine alone.
abbrev pub lift : {A : Type 0} → Option A → M A
lift none s = none
lift (some a) s = some (a, s)

infixl 5 ◌>>=◌ ◌>>◌
unfoldable pub ◌>>=◌ : {A B : Type 0} → M A → (A → M B) → M B
◌>>=◌ m f s = elim (m s) [ none ↦ none | some (a, t) ↦ f a t ]

abbrev pub ◌>>◌ : {B : Type 0} → M (Unit {0}) → M B → M B
m >> k = m >>= λ _. k

abbrev pub lookup : ℕ → Store → Option Bytes
lookup k [] = none
lookup k ((j, v) ∷ m) = if k == j then some v else lookup k m

abbrev pub update : ℕ → Bytes → Store → Store
update k v [] = []
update k v ((j, w) ∷ m) = if k == j then (j, v) ∷ m else (j, w) ∷ update k v m

abbrev pub find_block : ℕ → List Block → Option Block
find_block a [] = none
find_block a (b ∷ bs) = if a == b.address then some b else find_block a bs

abbrev pub remove_block : ℕ → List Block → List Block
remove_block a [] = []
remove_block a (b ∷ bs) = if a == b.address then bs else b ∷ remove_block a bs

abbrev pub replace_bytes : ℕ → Bytes → List Block → List Block
replace_bytes a v [] = []
replace_bytes a v (b ∷ bs) =
    if a == b.address then record b { bytes = v } ∷ bs else b ∷ replace_bytes a v bs

abbrev pub is_heap : Kind → Bool
is_heap heap = true
is_heap (elements r) = false
is_heap (critical r) = false

abbrev pub is_elements : ℕ → Kind → Bool
is_elements r heap = false
is_elements r (elements q) = r == q
is_elements r (critical q) = false

abbrev pub is_critical : ℕ → Kind → Bool
is_critical r heap = false
is_critical r (elements q) = false
is_critical r (critical q) = r == q

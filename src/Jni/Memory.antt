-- ===== src/Jni/Memory.antt =====
-- The C heap: malloc, calloc, free and memory accesses that stay inside one live block.
use chain_wallet.Common.{
  ℕ, ◌+◌, Bool, false, none, some, List, [], ◌∷◌, ◌++◌, Bytes, length, take, drop, replicate, leb,
  if◌then◌else◌,
}
use chain_wallet.Jni.Machine.{
  Kind, heap, Ptr, Jvm, M, find_block, remove_block, replace_bytes, is_heap,
}

abbrev pub denied : List Bool → Bool
denied [] = false
denied (d ∷ ds) = d

abbrev pub later : List Bool → List Bool
later [] = []
later (d ∷ ds) = ds

-- A new live block that holds `v`.
abbrev pub push_block : Kind → Bytes → Jvm → Jvm
push_block k v s = record s {
  blocks = record { address = s.next_address; kind = k; bytes = v } ∷ s.blocks;
  next_address = s.next_address + 1;
  denials = later s.denials;
}

-- A request for memory: NULL if it is refused.
abbrev pub obtain : Kind → Bytes → M Ptr
obtain k v s =
    if denied s.denials
    then some (none, record s { denials = later s.denials })
    else some (some s.next_address, push_block k v s)

-- `calloc(n, 1)`
unfoldable pub calloc : ℕ → M Ptr
calloc n = obtain heap (replicate n 0)

-- `malloc(n)`. What the block holds is indeterminate in C; it is 0 here, and the code that is
-- modelled writes each byte of such a block before it reads it.
unfoldable pub malloc : ℕ → M Ptr
malloc n = obtain heap (replicate n 0)

-- `free(p)`: nothing for NULL, a fault for what is no block of malloc or calloc.
unfoldable pub free : Ptr → M (Unit {0})
free none s = some (tt, s)
free (some a) s = elim (find_block a s.blocks) [
  | none ↦ none
  | some b ↦
      if is_heap b.kind then some (tt, record s { blocks = remove_block a s.blocks }) else none
]

-- The first `n` bytes of the block at `p`.
unfoldable pub read : Ptr → ℕ → M Bytes
read none n s = none
read (some a) n s = elim (find_block a s.blocks) [
  | none ↦ none
  | some b ↦ if leb n (length b.bytes) then some (take n b.bytes, s) else none
]

-- `v` written over `old` from its start.
abbrev pub overwrite : Bytes → Bytes → Bytes
overwrite v old = v ++ drop (length v) old

-- Writes `v` from the start of the block at `p`.
unfoldable pub write : Ptr → Bytes → M (Unit {0})
write none v s = none
write (some a) v s = elim (find_block a s.blocks) [
  | none ↦ none
  | some b ↦
      if leb (length v) (length b.bytes)
      then some (tt, record s { blocks = replace_bytes a (overwrite v b.bytes) s.blocks })
      else none
]

-- ===== src/CryptoJni/Parts.antt =====
-- Calls that use a part of a block: its start is written, or read into an array.
use chain_wallet.Common.{
  ℕ, ◌≡◌, ◌≤◌, some, Bytes, length, take, drop_all, arith, append-nil, eq_self, length-replicate,
  replicate, length-take,
}
use chain_wallet.Jni.Machine.{Block, heap, Jvm, lookup, find_block}
use chain_wallet.Jni.Memory.{read, write, overwrite}
use chain_wallet.Jni.Calls.{set_byte_array_region}
use chain_wallet.Jni.Steps.{
  ready, block, with_bytes, with_array, set_array, without_block, bind_step, new_array_step,
  free_step,
}
use chain_wallet.CryptoJni.Digests

pub read_part_step :
    (n a k : ℕ) (b : Block) (s : Jvm)
    → find_block a s.blocks ≡ some b
    → k ≤ length b.bytes
    → read (some a) k (ready n s) ≡ some (take k b.bytes, ready n s)
unfolding read ready
read_part_step n a k b s h e = ground arith

pub write_part_step :
    (n a : ℕ) (b : Block) (v : Bytes) (s : Jvm)
    → find_block a s.blocks ≡ some b
    → length v ≤ length b.bytes
    → write (some a) v (ready n s) ≡ some (tt, ready n (with_bytes a (overwrite v b.bytes) s))
unfolding write ready
write_part_step n a b v s h e = ground arith

pub set_region_part_step :
    (r k a : ℕ) (b : Block) (old : Bytes) (s : Jvm)
    → find_block a s.blocks ≡ some b
    → lookup r s.arrays ≡ some old
    → k ≤ length b.bytes
    → length old ≡ k
    → set_byte_array_region (some r) k (some a) (ready 0 s)
      ≡ some (tt, ready 0 (set_array r (take k b.bytes) s))
unfolding set_byte_array_region ready
set_region_part_step r k a b old s h l e f = ground (
  arith,
  length-take k b.bytes,
  drop_all (length (take k b.bytes)) old,
  append-nil (take k b.bytes),
)

-- The end of a wrapper that returns the first `n` bytes of its block.
pub return_part_step :
    (n a a' : ℕ) (v : Bytes) (s : Jvm)
    → n ≤ length v
    → find_block a s.blocks ≡ some (block a' heap v)
    → Digests.return_bytes n (some a) (ready 0 s)
      ≡ some (some s.next_ref, ready 0 (without_block a (with_array (take n v) s)))
unfolding Digests.return_bytes
return_part_step n a a' v s e h =
    let fresh = with_array (replicate n 0) s in
    bind_step _ _ (new_array_step n s) (
      bind_step _ _
        (set_region_part_step s.next_ref n a (block a' heap v) (replicate n 0) fresh h (rw eq_self)
          e (length-replicate _ _))
        (bind_step _ _ (free_step 0 a a' v _ h) (rw eq_self)))

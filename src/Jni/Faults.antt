-- ===== src/Jni/Faults.antt =====
-- Accesses past the end of a block.
use chain_wallet.Common.{ℕ, ◌≡◌, ◌<◌, none, some, Bytes, length, arith}
use chain_wallet.Jni.Machine.{Block, Jvm, find_block}
use chain_wallet.Jni.Memory.{read, write}
use chain_wallet.Jni.Steps.{ready}

pub read_past_end :
    (n a k : ℕ) (b : Block) (s : Jvm)
    → find_block a s.blocks ≡ some b
    → length b.bytes < k
    → read (some a) k (ready n s) ≡ none
unfolding read ready
read_past_end n a k b s h e = ground arith

pub write_past_end :
    (n a : ℕ) (b : Block) (v : Bytes) (s : Jvm)
    → find_block a s.blocks ≡ some b
    → length b.bytes < length v
    → write (some a) v (ready n s) ≡ none
unfolding write ready
write_past_end n a b v s h e = ground arith

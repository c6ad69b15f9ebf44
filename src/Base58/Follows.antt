-- ===== src/Base58/Follows.antt =====
-- The functions of base58.c on the C heap under refused memory. Only the block of length 0 that stands
-- for a wrong checksum is given back where it is refused.
use chain_wallet.Common.{ℕ, Bytes}
use chain_wallet.Jni.Machine.{Ptr}
use chain_wallet.Jni.Follows.{Follows, Ends, IsMissingOf, Follows-bind, Follows-option, Ends-first}
use chain_wallet.Jni.FollowsMethod.{follows_rules}
use chain_wallet.Jni.EndsCalls.{read-Ends}
use chain_wallet.Common.{none}
use chain_wallet.Jni.Machine.{M, ◌>>=◌}
use chain_wallet.Primitives.{Primitives}
use chain_wallet.Base58.Heap

touch-Follows : {P : Unit {0} → Type 0} (p : Ptr) (n : ℕ) → Follows P (Heap.touch p n)
unfolding Heap.touch
touch-Follows p n = search follows_rules

touch-Ends :
    {A : Type 0} {P : A → Type 0} (n : ℕ) (f : Unit {0} → M A) → Ends P (Heap.touch none n >>= f)
unfolding Heap.touch
touch-Ends n f = Ends-first _ f (read-Ends n _)

encode_nonempty-Follows :
    {P : Heap.Sized → Type 0} (p : Ptr) (n : ℕ) → Follows P (Heap.encode_nonempty p n)
unfolding Heap.encode_nonempty
encode_nonempty-Follows p n = search (touch-Follows, touch-Ends, follows_rules) depth 60 fits 4000

pub base58_encode-Follows :
    {P : Heap.Sized → Type 0} (p : Ptr) (n : ℕ) → Follows P (Heap.base58_encode p n)
unfolding Heap.base58_encode
base58_encode-Follows p n = search (encode_nonempty-Follows, follows_rules) depth 60 fits 4000

decode_nonempty-Follows : {P : Heap.Sized → Type 0} (t : Bytes) → Follows P (Heap.decode_nonempty t)
unfolding Heap.decode_nonempty
decode_nonempty-Follows t = search (touch-Follows, touch-Ends, follows_rules) depth 60 fits 4000

pub base58_decode-Follows : {P : Heap.Sized → Type 0} (t : Bytes) → Follows P (Heap.base58_decode t)
unfolding Heap.base58_decode
base58_decode-Follows t = search (decode_nonempty-Follows, follows_rules) depth 60 fits 4000

module _ (c : Primitives) where
  pub base58_encode_check-Follows :
      {P : Heap.Sized → Type 0} (p : Ptr) (n : ℕ) → Follows P (Heap.base58_encode_check c p n)
  unfolding Heap.base58_encode_check
  base58_encode_check-Follows p n = search (base58_encode-Follows, follows_rules) depth 60 fits 4000

  check-Follows : (p : Ptr) (n : ℕ) → Follows IsMissingOf (Heap.check c p n)
  unfolding Heap.check
  check-Follows p n = search follows_rules depth 60 fits 4000

  pub base58_decode_check-Follows : (t : Bytes) → Follows IsMissingOf (Heap.base58_decode_check c t)
  unfolding Heap.base58_decode_check
  base58_decode_check-Follows t = Follows-bind _ _ (base58_decode-Follows t) λ x.
      Follows-option (x.1) _ _ (search follows_rules)
        λ n. search (check-Follows, follows_rules) depth 60 fits 4000

-- ===== src/Secp256k1Jni/PublicKey.antt =====
-- How much of a public key `verify` of secp256k1-wrapper.c looks at.
use chain_wallet.Common.{
  ℕ, ◌≡◌, refl, none, some, [], ◌∷◌, Bytes, length, arith, ◌<◌, ◌≤◌, take, ◌⊎◌, inl, inr,
}
use chain_wallet.Jni.Machine.{Jvm, Block, Kind, find_block}
use chain_wallet.Jni.Steps.{ready, block, bind_step, bind_fault, read_part_step}
use chain_wallet.Jni.Faults.{read_past_end}
use chain_wallet.Secp256k1.{Ecdsa}
use chain_wallet.Secp256k1Jni

public_key_size-head :
    (key : Bytes) → Secp256k1Jni.public_key_size (take 1 key) ≡ Secp256k1Jni.public_key_size key
public_key_size-head [] = refl
public_key_size-head (b ∷ bs) = refl

public_key_size-positive : (key : Bytes) → 1 ≤ Secp256k1Jni.public_key_size key
public_key_size-positive [] = omega arith
public_key_size-positive (b ∷ bs) = ground arith

pub read_public_key_step :
    (n a : ℕ) (b : Block) (s : Jvm)
    → find_block a s.blocks ≡ some b
    → Secp256k1Jni.public_key_size b.bytes ≤ length b.bytes
    → Secp256k1Jni.read_public_key (some a) (ready n s)
      ≡ some (take (Secp256k1Jni.public_key_size b.bytes) b.bytes, ready n s)
unfolding Secp256k1Jni.read_public_key
read_public_key_step n a b s h e =
    let some_byte = public_key_size-positive b.bytes in
    bind_step _ _ (read_part_step n a 1 b s h (omega arith)) (
      rw (public_key_size-head b.bytes)
        (read_part_step n a (Secp256k1Jni.public_key_size b.bytes) b s h e))

pub read_public_key_past_end :
    (n a a' : ℕ) (k : Kind) (key : Bytes) (s : Jvm)
    → find_block a s.blocks ≡ some (block a' k key)
    → length key < Secp256k1Jni.public_key_size key
    → Secp256k1Jni.read_public_key (some a) (ready n s) ≡ none
unfolding Secp256k1Jni.read_public_key
read_public_key_past_end n a a' k [] s h e =
    bind_fault _ _ (read_past_end n a 1 (block a' k []) s h (omega arith))
read_public_key_past_end n a a' k (b ∷ bs) s h e =
    bind_step _ _ (read_part_step n a 1 (block a' k (b ∷ bs)) s h (omega arith))
      (read_past_end n a _ (block a' k (b ∷ bs)) s h e)

key_size :
    (key : Bytes) (b : ℕ)
    → take 1 key ≡ b ∷ []
    → (b ≡ 2) ⊎ (b ≡ 3)
    → Secp256k1Jni.public_key_size key ≡ 33
key_size [] b h two_or_three = cc
key_size (x ∷ xs) b h two_or_three = ground arith

-- Of a compressed public key all 33 bytes are looked at.
pub public_key_size-public_key33 :
    (e : Ecdsa) (k : Bytes) → Secp256k1Jni.public_key_size (e.public_key33 k) ≡ 33
public_key_size-public_key33 e k = elim (e.compressed-public_key33 k) [
  | inl h ↦ key_size (e.public_key33 k) 2 h (inl refl)
  | inr h ↦ key_size (e.public_key33 k) 3 h (inr refl)
]

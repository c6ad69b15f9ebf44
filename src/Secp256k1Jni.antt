-- ===== src/Secp256k1Jni.antt =====
-- crypto/secp256k1/src/main/cpp/secp256k1-wrapper.c: the functions of `Secp256k1JNI`. A private key
-- is read as 32 bytes and a signature as 64, whatever the lengths of their arrays are, and a public key as far as
-- its first byte says.
pub mod Kept
pub mod Moves
pub mod Follows
pub mod Digest
pub mod Laws
pub mod PublicKey
pub mod Verify
pub mod RoundTrip
use chain_wallet.Common.{
  ℕ, ◌+◌, ◌-◌, ◌*◌, Bool, true, false, Option, none, some, [], ◌∷◌, ◌++◌, Bytes, length, zeros, ltb,
  ◌==◌, if◌then◌else◌,
}
use chain_wallet.Jni.Machine.{Ptr, M, pure, ◌>>=◌, ◌>>◌}
use chain_wallet.Jni.Memory.{calloc, free, read, write}
use chain_wallet.Jni.Calls.{new_byte_array, set_byte_array_region, set_local_region}
use chain_wallet.Jni.Objects.{get_object_class, new_object_array, set_object_array_element}
use chain_wallet.Jni.Method.{
  copy_array_to_c, copy_array_release, critical_array_to_c, critical_array_release,
}
use chain_wallet.Secp256k1
use chain_wallet.Secp256k1.{Ecdsa}
use chain_wallet.CryptoJni.Digests.{return_bytes}

-- `memcpy(out + 32 - inLen, in, inLen)` into 32 zero bytes.
unfoldable pub padding_list : Bytes → Bytes
padding_list message =
    if ltb 32 (length message) then zeros 32 else zeros (32 - length message) ++ message

-- As many bytes as `ecdsa_read_pubkey` looks at, by the first of them.
abbrev pub public_key_size : Bytes → ℕ
public_key_size [] = 1
public_key_size (b ∷ bs) = if b == 4 then 65 else if b == 2 then 33 else if b == 3 then 33 else 1

unfoldable pub read_public_key : Ptr → M Bytes
read_public_key key = do head ← read key 1; read key (public_key_size head)

module _ (e : Ecdsa) where
  unfoldable pub create_public_key : ℕ → Bool → M Ptr
  create_public_key j_key compressed = do
    (key, key_size) ← critical_array_to_c j_key
    let size = if compressed then 33 else 65
    out ← calloc size
    elim out [
      | none ↦ do critical_array_release j_key key; pure none
      | some o ↦ do
        k ← read key 32
        write (some o) (Secp256k1.get_public e k (if compressed then 1 else 0))
        critical_array_release j_key key
        return_bytes size (some o)
    ]

  -- The digest of 32 bytes as it stands, a shorter message padded.
  unfoldable pub sign_any : Bytes → Bytes → Option (Bytes × ℕ)
  sign_any key message =
      if length message == 32
      then Secp256k1.sign e key message
      else Secp256k1.sign e key (padding_list message)

  -- A shorter message is signed without the test of `secp256k1_eth_sign`.
  unfoldable pub eth_sign_any : Bytes → Bytes → Option (Bytes × ℕ)
  eth_sign_any key message =
      if length message == 32
      then Secp256k1.eth_sign e key message
      else Secp256k1.sign e key (padding_list message)

  -- What follows once the message is known to be short enough. The signature's block is not freed.
  unfoldable pub sign_short : ℕ → ℕ → Ptr → ℕ → M Ptr
  sign_short j_key j_message messages message_size = do
    (key, key_size) ← copy_array_to_c j_key
    sig ← calloc 64
    k ← read key 32
    m ← read messages message_size
    elim (sign_any k m) [
      | none ↦ do copy_array_release j_key key; copy_array_release j_message messages; pure none
      | some (signature, pby) ↦ do
        write sig signature
        output ← new_byte_array 64
        set_byte_array_region output 64 sig
        copy_array_release j_key key
        copy_array_release j_message messages
        pure output
    ]

  unfoldable pub sign : ℕ → ℕ → M Ptr
  sign j_key j_message = do
    (messages, message_size) ← copy_array_to_c j_message
    if ltb 32 message_size
        then (do copy_array_release j_message messages; pure none)
        else sign_short j_key j_message messages message_size

  -- The signature and its recovery byte, the two elements of the array of objects. The signature's
  -- block is not freed.
  unfoldable pub eth_sign_short : ℕ → ℕ → Bool → Ptr → ℕ → M (Option (Ptr × Ptr))
  eth_sign_short j_key j_message compressed messages message_size = do
    (key, key_size) ← copy_array_to_c j_key
    sig ← calloc 64
    k ← read key 32
    m ← read messages message_size
    elim (eth_sign_any k m) [
      | none ↦ do copy_array_release j_key key; copy_array_release j_message messages; pure none
      | some (signature, pby) ↦ do
        write sig signature
        sign_array ← new_byte_array 64
        set_byte_array_region sign_array 64 sig
        get_object_class sign_array
        output_list ← new_object_array
        with_sign_array ← set_object_array_element output_list 0 sign_array
        recs ← new_byte_array 1
        set_local_region recs ((27 + pby + (if compressed then 1 else 0) * 4) ∷ [])
        with_recs ← set_object_array_element (some with_sign_array) 1 recs
        copy_array_release j_key key
        copy_array_release j_message messages
        pure (some with_recs)
    ]

  unfoldable pub eth_sign : ℕ → ℕ → Bool → M (Option (Ptr × Ptr))
  eth_sign j_key j_message compressed = do
    (messages, message_size) ← copy_array_to_c j_message
    if ltb 32 message_size
        then (do copy_array_release j_message messages; pure none)
        else eth_sign_short j_key j_message compressed messages message_size

  -- The curve's code does not look at the signature of a key that it rejects; here all three are read.
  unfoldable pub verify_short : ℕ → ℕ → ℕ → Ptr → ℕ → M Bool
  verify_short j_key j_signature j_message message message_size = do
    (key, key_size) ← copy_array_to_c j_key
    (signature, signature_size) ← copy_array_to_c j_signature
    k ← read_public_key key
    s ← read signature 64
    m ← read message message_size
    let digest = if message_size == 32 then m else padding_list m
    let ret = Secp256k1.verify e k s digest
    copy_array_release j_key key
    copy_array_release j_signature signature
    copy_array_release j_message message
    pure (ret == 0)

  -- A message that is too long is not given back.
  unfoldable pub verify : ℕ → ℕ → ℕ → M Bool
  verify j_key j_signature j_message = do
    (message, message_size) ← copy_array_to_c j_message
    if ltb 32 message_size
        then pure false
        else verify_short j_key j_signature j_message message message_size

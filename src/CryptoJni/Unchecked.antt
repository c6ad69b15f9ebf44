-- ===== src/CryptoJni/Unchecked.antt =====
-- The digest wrappers where memory is refused. Only the block of the result is checked: elements or an
-- array that are missing are used.
use chain_wallet.Common.{ℕ, ◌≡◌, refl, none, some, Bool, true, false, ◌∷◌, List, Bytes, arith}
use chain_wallet.Jni.Machine.{Jvm, M, Ptr, ◌>>=◌}
use chain_wallet.Jni.Memory
use chain_wallet.Jni.Calls
use chain_wallet.Jni.Method
use chain_wallet.Primitives.{Primitives}
use chain_wallet.CryptoJni.Digests
use chain_wallet.CryptoJni.DigestTable.{Algorithm, call}

abbrev pub denying : List Bool → Jvm → Jvm
denying ds s = record s { denials = ds }

-- What a wrapper does where its first, its second or its third request is refused.
abbrev Unchecked : M Ptr → List Bool → Jvm → Type 0
Unchecked m ds s =
    (m (denying (true ∷ ds) s) ≡ some (none, denying ds s))
    × (m (denying (false ∷ true ∷ ds) s) ≡ none)
    × (m (denying (false ∷ false ∷ true ∷ ds) s) ≡ none)

module _ (n : ℕ) (f : Bytes → Bytes) (r : ℕ) (ds : List Bool) (s : Jvm) where
  copy_digest-Unchecked : Unchecked (Digests.copy_digest n f r) ds s
  unfolding Digests.copy_digest Method.copy_array_to_c Memory.calloc Calls.get_array_length
      Calls.get_byte_array_elements Memory.read Memory.write Method.copy_array_release
      Calls.release_byte_array_elements Digests.return_bytes Calls.new_byte_array
      Calls.set_byte_array_region ◌>>=◌
  copy_digest-Unchecked = (refl, ground arith, ground arith)

  copy_double_digest-Unchecked : Unchecked (Digests.copy_double_digest n f r) ds s
  unfolding Digests.copy_double_digest Method.copy_array_to_c Memory.calloc Calls.get_array_length
      Calls.get_byte_array_elements Memory.read Memory.write Method.copy_array_release
      Calls.release_byte_array_elements Digests.return_bytes Calls.new_byte_array
      Calls.set_byte_array_region ◌>>=◌
  copy_double_digest-Unchecked = (refl, ground arith, ground arith)

  critical_digest-Unchecked : Unchecked (Digests.critical_digest n f r) ds s
  unfolding Digests.critical_digest Method.critical_array_to_c Memory.calloc Calls.get_array_length
      Calls.get_primitive_array_critical Memory.read Memory.write Method.critical_array_release
      Calls.release_primitive_array_critical Digests.return_bytes Calls.new_byte_array
      Calls.set_byte_array_region ◌>>=◌
  critical_digest-Unchecked = (refl, ground arith, ground arith)

  critical_double_digest-Unchecked : Unchecked (Digests.critical_double_digest n f r) ds s
  unfolding Digests.critical_double_digest Method.critical_array_to_c Memory.calloc
      Calls.get_array_length Calls.get_primitive_array_critical Memory.read Memory.write
      Method.critical_array_release Calls.release_primitive_array_critical Digests.return_bytes
      Calls.new_byte_array Calls.set_byte_array_region ◌>>=◌
  critical_double_digest-Unchecked = (refl, ground arith, ground arith)

-- Of the three requests for memory that each of the thirteen digest wrappers makes, a refusal of the
-- first gives NULL and changes nothing but that it is used up, and a refusal of the second or of the third
-- is a fault, whatever array is given.
pub call_unchecked :
    (c : Primitives) (a : Algorithm) (r : ℕ) (ds : List Bool) (s : Jvm)
    → (call c a r (denying (true ∷ ds) s) ≡ some (none, denying ds s))
      × (call c a r (denying (false ∷ true ∷ ds) s) ≡ none)
      × (call c a r (denying (false ∷ false ∷ true ∷ ds) s) ≡ none)
unfolding Digests.sha256 Digests.sha512 Digests.sha3_224 Digests.sha3_256 Digests.sha3_384
    Digests.sha3_512 Digests.keccak_224 Digests.keccak_256 Digests.keccak_384 Digests.keccak_512
    Digests.double_sha256 Digests.double_sha3_256 Digests.double_keccak_256
call_unchecked c Algorithm.sha256 r = copy_digest-Unchecked 32 c.sha256 r
call_unchecked c Algorithm.sha512 r = copy_digest-Unchecked 64 c.sha512 r
call_unchecked c Algorithm.double_sha256 r = copy_double_digest-Unchecked 32 c.sha256 r
call_unchecked c Algorithm.double_sha3_256 r = critical_double_digest-Unchecked 32 c.sha3_256 r
call_unchecked c Algorithm.double_keccak_256 r = critical_double_digest-Unchecked 32 c.keccak_256 r
call_unchecked c _ r = critical_digest-Unchecked _ _ r

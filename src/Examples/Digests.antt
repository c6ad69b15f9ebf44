-- ===== src/Examples/Digests.antt =====
-- The digest, BLAKE, HMAC and PBKDF2 wrappers on a concrete machine.
use chain_wallet.Common.{◌≡◌, refl, true, false, none, some, [], ◌∷◌, zeros, replicate}
use chain_wallet.Jni.Steps.{ready, used, counted, with_array}
use chain_wallet.CryptoJni.Keyed
use chain_wallet.CryptoJni.Blake
use chain_wallet.CryptoJni.DigestTable.{Algorithm, call, call_lem}
use chain_wallet.CryptoJni.KeyedLaws.{hmac_lem}
use chain_wallet.CryptoJni.BlakeLaws.{blake2s_refused}
use chain_wallet.CryptoJni.Unchecked.{denying, call_unchecked}
use chain_wallet.Examples.Data.{primitives, machine}

call_lem_example :
    call primitives Algorithm.double_sha256 0 (ready 0 machine)
    ≡ some (some 30, ready 0 (with_array (zeros 32) (used 2 machine)))
call_lem_example = call_lem primitives Algorithm.double_sha256 0 (1 ∷ 2 ∷ 3 ∷ []) machine refl

call_unchecked_example :
    (call primitives Algorithm.keccak_256 0 (denying (true ∷ false ∷ []) machine)
      ≡ some (none, denying (false ∷ []) machine))
    × (call primitives Algorithm.keccak_256 0 (denying (false ∷ true ∷ false ∷ []) machine) ≡ none)
    × (call primitives Algorithm.keccak_256 0 (denying (false ∷ false ∷ true ∷ false ∷ []) machine)
        ≡ none)
call_unchecked_example = call_unchecked primitives Algorithm.keccak_256 0 (false ∷ []) machine

hmac_lem_example :
    Keyed.hmac 32 primitives.hmac_sha256 1 0 (ready 0 machine)
    ≡ some (some 30, ready 0 (with_array (replicate 32 13) (counted (used 3 machine))))
hmac_lem_example =
    hmac_lem 32 primitives.hmac_sha256 primitives.length-hmac_sha256 1 0 (replicate 32 7)
      (1 ∷ 2 ∷ 3 ∷ []) machine refl refl

blake2s_refused_example : Blake.blake2s primitives 0 65 (ready 0 machine) ≡ none
blake2s_refused_example = blake2s_refused primitives 0 65 (1 ∷ 2 ∷ 3 ∷ []) machine refl refl

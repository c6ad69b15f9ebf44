-- ===== src/Examples/Sessions.antt =====
-- Sessions and histories of concrete requests.
use chain_wallet.Common.{
  ◌≡◌, ◌++◌, ◌⊎◌, refl, true, false, some, none, List, [], ◌∷◌, codes, zeros, replicate, arith,
}
use chain_wallet.Jni.Machine.{Jvm, lookup}
use chain_wallet.Jni.Steps.{ready, used, with_array, bind_step}
use chain_wallet.Jni.Strings.{with_string}
use chain_wallet.Jni.Valid.{IsValid}
use chain_wallet.Secp256k1
use chain_wallet.Base58
use chain_wallet.CryptoJni.Codecs
use chain_wallet.CryptoJni.DigestTable.{sha256, keccak_256, call_lem}
use chain_wallet.CryptoJni.CheckRoundTrip.{encode_then_decode, base58_decode_check-encode_check}
use chain_wallet.CryptoJni.CheckLaws.{base58_decode_check_refused}
use chain_wallet.CryptoJni.TextLaws.{base32_encode_overflows}
use chain_wallet.Native.{
  Library, Request, Reply, reference, verdict, perform, hash, secp256k1_create_public_key,
  ed25519_sign, ed25519_verify,
}
use chain_wallet.Native.View.{View, view}
use chain_wallet.Native.Spec.{spec}
use chain_wallet.Native.Reach.{Reach, start, next, call, memory}
use chain_wallet.Native.Follows.{IsNull}
use chain_wallet.Native.Histories.{open_regions-Reach, unsafe_calls-perform, perform-Reach}
use chain_wallet.CryptoJni.Unchecked.{denying, call_unchecked}
use chain_wallet.Examples.Data.{are_bytes-IsBytes, primitives, ecdsa, donna, aes, machine}

abbrev library : Library
library = record { primitives = primitives; ecdsa = ecdsa; donna = donna; aes = aes }

machine-IsValid : IsValid machine
machine-IsValid = record {
  arrays_below = (
    omega arith,
    (
      omega arith,
      (
        omega arith,
        (
          omega arith,
          (omega arith, (omega arith, (omega arith, (omega arith, (omega arith, tt))))),
        ),
      ),
    ),
  );
  strings_below = (omega arith, tt);
  blocks_below = tt;
  regions = refl;
  fits = tt;
}

-- A digest, a public key, a signature and its verification.
abbrev requests : List Request
requests =
    hash sha256 0
    ∷ secp256k1_create_public_key 1 true
    ∷ ed25519_sign 1 0 3
    ∷ ed25519_verify 30 32 0 3
    ∷ []

abbrev replies : List Reply
replies = reference (some 30) ∷ reference (some 31) ∷ reference (some 32) ∷ verdict false ∷ []

abbrev seen : View
seen = record {
  arrays = (32, replicate 64 5) ∷ (31, replicate 33 2) ∷ (30, zeros 32) ∷ machine.arrays;
  strings = machine.strings;
  next_ref = 33;
}

abbrev signed : View
signed = record {
  arrays = (30, replicate 64 5) ∷ machine.arrays;
  strings = machine.strings;
  next_ref = 31;
}

-- A call, a write of the app to the digest's array, and a refusal of memory to come.
abbrev hashed : Jvm
hashed = with_array (zeros 32) (used 2 machine)

hash_runs : perform library (hash sha256 0) machine ≡ some (reference (some 30), hashed)
unfolding perform ready
hash_runs = bind_step _ _ (call_lem primitives sha256 0 (1 ∷ 2 ∷ 3 ∷ []) machine refl) refl

abbrev refusing : Jvm
refusing = record hashed { denials = true ∷ [] }

history : Reach library machine refusing
history =
    next hashed refusing
      (next machine hashed start (call (hash sha256 0) (reference (some 30)) hashed hash_runs))
      (memory (true ∷ []))

-- A digest whose input is taken over in a critical region.
abbrev keccak : Jvm
keccak = with_array (replicate 32 8) (used 2 machine)

keccak_runs : perform library (hash keccak_256 0) machine ≡ some (reference (some 30), keccak)
unfolding perform ready
keccak_runs = bind_step _ _ (call_lem primitives keccak_256 0 (1 ∷ 2 ∷ 3 ∷ []) machine refl) refl

unsafe_calls-perform_example : keccak.unsafe_calls ≡ machine.unsafe_calls
unsafe_calls-perform_example =
    unsafe_calls-perform library (hash keccak_256 0) machine keccak (reference (some 30)) refl refl
      keccak_runs

-- The next digest is given no memory.
null_digest : perform library (hash sha256 0) refusing ≡ some (reference none, denying [] hashed)
unfolding perform
null_digest = bind_step _ _ ((call_unchecked primitives sha256 0 [] hashed).0) refl

digest_promised :
    spec library (hash sha256 0) (view refusing)
    ≡ some (reference (some 31), view (with_array (zeros 32) hashed))
unfolding spec
digest_promised = refl

perform-Reach_example :
    IsNull (reference none)
    ⊎ ((reference none ≡ reference (some 31))
        × (view (denying [] hashed) ≡ view (with_array (zeros 32) hashed)))
perform-Reach_example =
    perform-Reach library machine refusing (denying [] hashed) (hash sha256 0) machine-IsValid refl
      history null_digest digest_promised

open_regions-Reach_example : refusing.open_regions ≡ machine.open_regions
open_regions-Reach_example = open_regions-Reach library machine refusing history

checked_text : Base58.encode ((1 ∷ 2 ∷ 3 ∷ []) ++ zeros 4) ≡ some (codes "3DUyTaPdy")
unfolding Base58.encode
checked_text = refl

base58_decode_check-encode_check_example :
    encode_then_decode primitives 0 (ready 0 machine)
    ≡ some (
      some 31,
      ready 0
          (with_array (1 ∷ 2 ∷ 3 ∷ []) (used 4 (with_string (codes "3DUyTaPdy") (used 5 machine)))),
    )
base58_decode_check-encode_check_example =
    base58_decode_check-encode_check primitives 0 1 (2 ∷ 3 ∷ []) (omega arith)
      (are_bytes-IsBytes (1 ∷ 2 ∷ 3 ∷ []) refl) 0 machine refl checked_text (omega arith)

abbrev with_text : Jvm
with_text = with_string (codes "3DUyZY2dc") machine

wrong_text : Base58.decode (codes "3DUyZY2dc") ≡ some (1 ∷ 2 ∷ 3 ∷ 4 ∷ 5 ∷ 6 ∷ 7 ∷ [])
unfolding Base58.decode
wrong_text = refl

base58_decode_check_refused_example :
    Codecs.base58_decode_check primitives 30 (ready 0 with_text)
    ≡ some (
      some 31,
      ready 0 (record (with_array [] (used 4 with_text)) {
        blocks =
            (record {
              address = 2;
              kind = chain_wallet.Jni.Machine.heap;
              bytes = 1 ∷ 2 ∷ 3 ∷ 4 ∷ 5 ∷ 6 ∷ 7 ∷ 0 ∷ [];
            })
            ∷ [];
      }),
    )
base58_decode_check_refused_example =
    base58_decode_check_refused primitives 30 (codes "3DUyZY2dc") (1 ∷ 2 ∷ 3 ∷ 4 ∷ 5 ∷ 6 ∷ 7 ∷ [])
      with_text refl refl wrong_text (omega arith) refl

base32_encode_overflows_example : Codecs.base32_encode 0 true (ready 0 machine) ≡ none
base32_encode_overflows_example =
    base32_encode_overflows 0 (1 ∷ 2 ∷ 3 ∷ []) machine refl
      (are_bytes-IsBytes (1 ∷ 2 ∷ 3 ∷ []) refl) (λ e. omega arith)

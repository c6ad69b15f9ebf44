-- ===== src/CryptoJni/DigestTable.antt =====
-- The digest wrappers as a table, and their common contract.
use chain_wallet.Common.{ℕ, ◌≡◌, some, Bytes}
use chain_wallet.Jni.Machine.{Ptr, Jvm, M, lookup}
use chain_wallet.Jni.Steps.{ready, used, with_array}
use chain_wallet.Primitives.{Primitives}
use chain_wallet.CryptoJni.Digests
use chain_wallet.CryptoJni.DigestLaws.{
  copy_digest_lem, critical_digest_lem, copy_double_digest_lem, critical_double_digest_lem,
}

pub data Algorithm : Type 0 where
  sha256 sha512 sha3_224 sha3_256 sha3_384 sha3_512 keccak_224 : Algorithm
  keccak_256 keccak_384 keccak_512 double_sha256 double_sha3_256 double_keccak_256 : Algorithm

abbrev pub call : Primitives → Algorithm → ℕ → M Ptr
call c Algorithm.sha256 = Digests.sha256 c
call c Algorithm.sha512 = Digests.sha512 c
call c Algorithm.sha3_224 = Digests.sha3_224 c
call c Algorithm.sha3_256 = Digests.sha3_256 c
call c Algorithm.sha3_384 = Digests.sha3_384 c
call c Algorithm.sha3_512 = Digests.sha3_512 c
call c Algorithm.keccak_224 = Digests.keccak_224 c
call c Algorithm.keccak_256 = Digests.keccak_256 c
call c Algorithm.keccak_384 = Digests.keccak_384 c
call c Algorithm.keccak_512 = Digests.keccak_512 c
call c Algorithm.double_sha256 = Digests.double_sha256 c
call c Algorithm.double_sha3_256 = Digests.double_sha3_256 c
call c Algorithm.double_keccak_256 = Digests.double_keccak_256 c

-- What each is named for.
abbrev pub digest : Primitives → Algorithm → Bytes → Bytes
digest c Algorithm.sha256 m = c.sha256 m
digest c Algorithm.sha512 m = c.sha512 m
digest c Algorithm.sha3_224 m = c.sha3_224 m
digest c Algorithm.sha3_256 m = c.sha3_256 m
digest c Algorithm.sha3_384 m = c.sha3_384 m
digest c Algorithm.sha3_512 m = c.sha3_512 m
digest c Algorithm.keccak_224 m = c.keccak_224 m
digest c Algorithm.keccak_256 m = c.keccak_256 m
digest c Algorithm.keccak_384 m = c.keccak_384 m
digest c Algorithm.keccak_512 m = c.keccak_512 m
digest c Algorithm.double_sha256 m = c.sha256 (c.sha256 m)
digest c Algorithm.double_sha3_256 m = c.sha3_256 (c.sha3_256 m)
digest c Algorithm.double_keccak_256 m = c.keccak_256 (c.keccak_256 m)

-- Each of the thirteen digest wrappers returns a new array that holds the digest (or the digest of
-- the digest) of its input, if no request for memory is refused. Every block that it obtains is
-- given up, no JNI call is made inside a critical region, and the input and all other arrays,
-- strings and blocks are as before.
pub call_lem :
    (c : Primitives) (a : Algorithm) (r : ℕ) (input : Bytes) (s : Jvm)
    → lookup r s.arrays ≡ some input
    → call c a r (ready 0 s)
      ≡ some (some s.next_ref, ready 0 (with_array (digest c a input) (used 2 s)))
unfolding Digests.sha256 Digests.sha512 Digests.sha3_224 Digests.sha3_256 Digests.sha3_384
    Digests.sha3_512 Digests.keccak_224 Digests.keccak_256 Digests.keccak_384 Digests.keccak_512
    Digests.double_sha256 Digests.double_sha3_256 Digests.double_keccak_256
call_lem c Algorithm.sha256 = copy_digest_lem 32 c.sha256 c.length-sha256
call_lem c Algorithm.sha512 = copy_digest_lem 64 c.sha512 c.length-sha512
call_lem c Algorithm.sha3_224 = critical_digest_lem 28 c.sha3_224 c.length-sha3_224
call_lem c Algorithm.sha3_256 = critical_digest_lem 32 c.sha3_256 c.length-sha3_256
call_lem c Algorithm.sha3_384 = critical_digest_lem 48 c.sha3_384 c.length-sha3_384
call_lem c Algorithm.sha3_512 = critical_digest_lem 64 c.sha3_512 c.length-sha3_512
call_lem c Algorithm.keccak_224 = critical_digest_lem 28 c.keccak_224 c.length-keccak_224
call_lem c Algorithm.keccak_256 = critical_digest_lem 32 c.keccak_256 c.length-keccak_256
call_lem c Algorithm.keccak_384 = critical_digest_lem 48 c.keccak_384 c.length-keccak_384
call_lem c Algorithm.keccak_512 = critical_digest_lem 64 c.keccak_512 c.length-keccak_512
call_lem c Algorithm.double_sha256 = copy_double_digest_lem 32 c.sha256 c.length-sha256
call_lem c Algorithm.double_sha3_256 = critical_double_digest_lem 32 c.sha3_256 c.length-sha3_256
call_lem c Algorithm.double_keccak_256 =
    critical_double_digest_lem 32 c.keccak_256 c.length-keccak_256

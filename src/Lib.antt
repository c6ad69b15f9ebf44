-- ===== src/Lib.antt =====
-- A verification library for the native code of this wallet: the C functions that its Kotlin
-- modules call through JNI.
--
-- The program. `crypto/*/src/main/cpp` and `core/authority-ckeck/src/main/cpp` hold the wrappers: a
-- wrapper takes Java byte arrays over, by a copy or inside a critical region, calls code of
-- `native-crypto`, puts the result into a new Java array or string, and gives back what it took.
-- `native-crypto` holds the project's own codecs and helpers (jni_method.c, hexstring.c, base58.c,
-- base32.c, der.c, secp256k1.c) beside copies of other projects' cryptographic code.
--
-- The files.
--   Common               names, lists, tests and chains of optional results
--   Jni                  the machine that the wrappers run on: Machine (Java arrays and strings, live C
--                        blocks, open critical regions), Memory (malloc, calloc, free, accesses), Calls
--                        and Objects (the JNI functions), Method (native-crypto/jni_method.c); Steps, Arrays, Strings
--                        and Faults have one lemma for each call, which the wrappers' theorems chain.
--                        Valid says what a valid machine is, Keeps what it is for a piece of code to
--                        keep it valid, and Changes and Kept* are about that of each call. Follows and
--                        Ends compare a run in which memory is refused with the run that is granted all
--   Primitives           the cryptographic functions that the wrappers call, as parameters
--   CryptoJni            crypto/core/src/main/cpp/crypto-wrapper.c, by the groups of its functions:
--                        Digests, Keyed, Blake and Codecs have the wrappers, the files with Laws what
--                        each returns and leaves behind
--   Hexstring, Base58, Base32, Der
--                        native-crypto/hexstring.c, base58.c, base32.c and der.c as functions on bytes;
--                        Base58/Heap has the functions of base58.c on the C heap
--   Secp256k1            native-crypto/secp256k1.c
--   Secp256k1Jni         crypto/secp256k1/src/main/cpp/secp256k1-wrapper.c
--   Ed25519Jni           crypto/ed25519/src/main/cpp/ed25519-wrapper.c
--   AesJni               crypto/aes/src/main/cpp/aes-wrapper.c
--   Authority            core/authority-ckeck/src/main/cpp: valid.c, keys.c and authority-lib.c
--   Native               all exported functions as requests to one machine (`perform`), and sessions of
--                        requests. Spec is what each promises to the app, over a View of arrays, strings
--                        and the next reference; Implements says what it is to keep a promise, the
--                        files with Meet are about one request, Session about sequences of them. Reach
--                        has histories in which Java code runs between the calls and memory may be
--                        refused; Refusals is about one call for which memory is refused, Histories
--                        about the replies and the open critical regions along a history. The files
--                        named Kept, here and beside the wrappers, are about the validity of the
--                        machine (Jni/Valid), those named Follows about refused memory
--                        (Jni/Follows), those named Moves about open critical regions (Jni/Moves)
--   Examples             the theorems on concrete inputs, and the instances of the parameters
--
-- How the code is modelled. A definition has the function's name in snake case. A wrapper is a
-- function of the machine; `none` is undefined behaviour: an access outside a block, a NULL that is
-- used, a release of the wrong kind. A request for memory, of the heap or of JNI, can be refused
-- (`denials` says which ones are), and `ready n` is a machine that refuses none and has n critical
-- regions open. `used k` says that k blocks were obtained and all given up, and `counted` that one
-- more JNI call was made inside a critical region.
-- Bytes are numbers, with the reduction modulo 256 written out where a `uint8_t` wraps; an `int` that
-- counts bytes of an array in memory is not reduced. Loops are recursion on the list or the count
-- that they run over. The loops of base58.c run on the buffers that the code allocates: a write past
-- them is a fault, and the theorems show that it does not occur.
--
-- What is not modelled. The copies of other projects' code (sha2.c, sha3.c, ripemd160.c, blake*.c,
-- hmac.c, pbkdf2.c, bignum.c, ecdsa.c and the curves, aes, ed25519-donna) are parameters: records of
-- functions with the lengths of their results; BLAKE2 with a key is a function apart, which refuses an
-- empty key. How much of a public key ecdsa.c looks at, by its first byte, is `public_key_size`. Where a theorem relies on more, such as that a
-- signature verifies, it has that as a hypothesis; that one is about valid private keys and about
-- digests that are no multiple of the curve's order, since ecdsa.c signs a digest of zeros and does not
-- verify it. The Java objects that valid.c reaches by
-- reflection are a parameter too. The array of two objects that `ethSign` returns is a value, with no
-- reference of its own. Pending exceptions, local references and the log are left out, as
-- is a negative size from Java. A collection of garbage takes no step: a reference that the app holds
-- stays good. Spec promises nothing for `hexToStr`, which overruns its block on every input, and for
-- `base32Encode` with padding.
pub mod Common
pub mod Jni
pub mod Primitives
pub mod CryptoJni
pub mod Hexstring
pub mod Der
pub mod Base58
pub mod Base32
pub mod Secp256k1
pub mod Secp256k1Jni
pub mod Ed25519Jni
pub mod AesJni
pub mod Authority
pub mod Native
pub mod Examples

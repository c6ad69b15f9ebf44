-- ===== src/Native/View.antt =====
-- What the app can see of a machine: its arrays, its strings and the reference that the next of them
-- gets. Nothing of C memory, of locks or of the order of releases is in it. Below it are the shapes that
-- the promises of the native functions have.
use chain_wallet.Common.{
  ℕ, ◌+◌, ◌-◌, take, drop, ◌*◌, Bool, true, false, ◌&&◌, Option, none, some, [], ◌∷◌, Bytes, length,
  ltb, leb, ◌==◌, if◌then◌else◌,
}
use chain_wallet.Common.Chain.{◌>>=◌}
use chain_wallet.Jni.Machine.{Store, Jvm, lookup, update}
use chain_wallet.Primitives.{Primitives}
use chain_wallet.Base32
use chain_wallet.Base58.Heap.{checksum, same_bytes}
use chain_wallet.Der.{Status, accepted, rejected}
use chain_wallet.CryptoJni.Base32Laws.{filled}
use chain_wallet.Secp256k1
use chain_wallet.Secp256k1.{Ecdsa}
use chain_wallet.Secp256k1Jni
use chain_wallet.AesJni.{Chained}
use chain_wallet.AesJni.Laws.{Mode, cbc, cfb, ofb, ctr}
use chain_wallet.Native.{Reply, reference, references, verdict}

pub record View : Type 0 where
  pub arrays : Store
  pub strings : Store
  pub next_ref : ℕ

abbrev pub view : Jvm → View
view s = record { arrays = s.arrays; strings = s.strings; next_ref = s.next_ref }

abbrev pub Outcome : Type 0
Outcome = Option (Reply × View)

-- A condition of the promise.
abbrev pub needs : Bool → Outcome → Outcome
needs true o = o
needs false o = none

abbrev pub choose {ℓ κ} : {A : Type ℓ} {B : Type κ} → Option A → B → (A → B) → B
choose none b f = b
choose (some a) b f = f a

abbrev pub null : View → Outcome
null w = some (reference none, w)

abbrev pub with_new : Bytes → View → View
with_new v w = record w { arrays = (w.next_ref, v) ∷ w.arrays; next_ref = w.next_ref + 1 }

abbrev pub new_array : Bytes → View → Outcome
new_array v w = some (reference (some w.next_ref), with_new v w)

abbrev pub new_string : Bytes → View → Outcome
new_string t w = some (
  reference (some w.next_ref),
  record w { strings = (w.next_ref, t) ∷ w.strings; next_ref = w.next_ref + 1 },
)

-- A function of one array, and of two.
abbrev pub of_array : (Bytes → Bytes) → ℕ → View → Outcome
of_array f r w = do v ← lookup r w.arrays; new_array (f v) w

abbrev pub of_arrays : (Bytes → Bytes → Bytes) → ℕ → ℕ → View → Outcome
of_arrays f r q w = do v ← lookup r w.arrays; u ← lookup q w.arrays; new_array (f v u) w

-- A key of 32 bytes.
abbrev pub of_key : (Bytes → Bytes) → ℕ → View → Outcome
of_key f r w = do k ← lookup r w.arrays; needs (length k == 32) (new_array (f k) w)

abbrev pub or_null : Option Bytes → View → Outcome
or_null o w = choose o (null w) (λ h. new_array h w)

abbrev pub are_bytes : Bytes → Bool
are_bytes [] = true
are_bytes (b ∷ bs) = ltb b 256 && are_bytes bs

abbrev pub has_nonzero : Bytes → Bool
has_nonzero [] = false
has_nonzero (b ∷ bs) = if b == 0 then has_nonzero bs else true

abbrev pub of_status : Status (Bytes × ℕ) → View → Outcome
of_status rejected w = null w
of_status (accepted (sig, n)) w = new_array sig w

abbrev pub base32_of : Bytes → View → Outcome
base32_of v w = do
  text ← Base32.base32_encode v (Base32.base32_encoded_length (length v) + 1)
  needs (are_bytes v) (new_string text w)

-- A text that is refused gives NULL. Behind the bytes of another stands a zero for each byte that its
-- '=' would have stood for.
abbrev pub decoded32 : Bytes → View → Outcome
decoded32 text w =
    choose (Base32.base32_decode_padding text (Base32.base32_decoded_length (length text))) (null w)
      (λ bytes. new_array (filled text bytes) w)

-- The last four bytes are the checksum of those before them, or an empty array comes back.
abbrev pub checked : Primitives → Bytes → View → Outcome
checked c bytes w =
    if same_bytes (checksum c (take (length bytes - 4) bytes)) (drop (length bytes - 4) bytes)
    then new_array (take (length bytes - 4) bytes) w
    else new_array [] w

-- A message that is too long is not signed.
abbrev pub signed : Ecdsa → ℕ → ℕ → View → Outcome
signed e k m w = do
  key ← lookup k w.arrays
  message ← lookup m w.arrays
  if ltb 32 (length message)
      then null w
      else needs (length key == 32) (
          choose (Secp256k1.sign e key (Secp256k1Jni.padding_list message)) (null w)
            (λ g. new_array (g.0) w))

abbrev pub eth_signed : Ecdsa → ℕ → ℕ → Bool → View → Outcome
eth_signed e k m compressed w = do
  key ← lookup k w.arrays
  message ← lookup m w.arrays
  (sig, v) ← Secp256k1Jni.eth_sign_any e key message
  needs (length key == 32 && leb (length message) 32) (
      some (
        references (some (some w.next_ref, some (w.next_ref + 1))),
        with_new ((27 + v + (if compressed then 1 else 0) * 4) ∷ []) (with_new sig w),
      ))

-- The public key has to be as long as its first byte says.
abbrev pub verified : Ecdsa → ℕ → ℕ → ℕ → View → Outcome
verified e k g m w = do
  message ← lookup m w.arrays
  if ltb 32 (length message) then some (verdict false, w) else (do
    key ← lookup k w.arrays
    sig ← lookup g w.arrays
    needs (leb (Secp256k1Jni.public_key_size key) (length key) && length sig == 64) (
        some (
          verdict (
              Secp256k1.verify e (take (Secp256k1Jni.public_key_size key) key) sig
                (Secp256k1Jni.padding_list message)
              == 0),
          w,
        )))

abbrev pub mode_of : ℕ → Option Mode
mode_of n =
    if n == 1
    then some cbc
    else if n == 2
    then some cfb
    else if n == 3
    then some ofb
    else if n == 4
    then some ctr
    else none

-- The caller's IV becomes what the cipher makes of it. What the code refuses, the key or the data,
-- gives an empty array.
abbrev pub ciphered : (Bytes → Option Bytes) → Chained → ℕ → Bytes → Bytes → Bytes → View → Outcome
ciphered expand f i key input iv w = needs (length iv == 16) (
    choose (expand key) (new_array [] w) (λ ctx. choose (f ctx input iv) (new_array [] w) (λ o.
      needs (length (o.0) == length input && length (o.1) == 16)
        (new_array (o.0) (record w { arrays = update i (o.1) w.arrays })))))

-- ECB, which has no IV.
abbrev pub ciphered_alone :
    (Bytes → Option Bytes) → (Bytes → Bytes → Option Bytes) → Bytes → Bytes → View → Outcome
ciphered_alone expand f key input w = choose (expand key) (new_array [] w) (λ ctx.
    choose (f ctx input) (new_array [] w)
      (λ out. needs (length out == length input) (new_array out w)))

abbrev pub ciphered_in :
    (Mode → Bytes → Option Bytes)
    → (Mode → Chained)
    → ℕ
    → Bytes
    → Bytes
    → Bytes
    → ℕ
    → View
    → Outcome
ciphered_in expand f i key input iv mode w = do
  m ← mode_of mode
  ciphered (expand m) (f m) i key input iv w

-- The modes by their numbers; beyond 4 there is none.
abbrev pub ciphered_by :
    (Bytes → Option Bytes)
    → (Bytes → Bytes → Option Bytes)
    → (Mode → Bytes → Option Bytes)
    → (Mode → Chained)
    → ℕ
    → ℕ
    → ℕ
    → ℕ
    → View
    → Outcome
ciphered_by expand_alone alone expand f k d i mode w = do
  key ← lookup k w.arrays
  input ← lookup d w.arrays
  iv ← lookup i w.arrays
  if ltb 4 mode
      then new_array [] w
      else if mode == 0
      then ciphered_alone expand_alone alone key input w
      else ciphered_in expand f i key input iv mode w

-- ===== src/Der.antt =====
-- native-crypto/der.c. A pointer is the list of the bytes from it on, and what is written to the
-- output buffer is the result, from its first byte on. A read past the input is a fault (`none`),
-- and so is a write past the 64 bytes of a signature. A `uint8_t` wraps at 256.
pub mod Encode
pub mod RoundTrip
pub mod Accepted
pub mod Overread
pub mod Overrun
pub mod Strict
use chain_wallet.Common.{
  ℕ, zero, suc, ◌+◌, ◌-◌, ◌%◌, Option, none, some, [], ◌∷◌, ◌++◌, Bytes, length, drop, replicate,
  ltb, leb, ◌==◌, if◌then◌else◌,
}
use chain_wallet.Common.Chain.{◌>>=◌, copy}

-- `while (sig[i] == 0 && i < end) i++`, with `end - i` left: what is left, and the pointer.
pub skip_zeros : ℕ → Bytes → Option (ℕ × Bytes)
skip_zeros left [] = none
skip_zeros zero (b ∷ p) = some (0, b ∷ p)
skip_zeros (suc left) (b ∷ p) = if b == 0 then skip_zeros left p else some (suc left, b ∷ p)

-- A zero byte if the top bit is set, then the bytes that are left.
pub content : ℕ × Bytes → Option Bytes
content (left, []) = none
content (left, b ∷ p) = do bytes ← copy left (b ∷ p); some (if leb 0x80 b then 0 ∷ bytes else bytes)

pub integer_content : Bytes → Option Bytes
unfolding skip_zeros content
integer_content p = do left ← skip_zeros 32 p; content left

-- The DER bytes, and the length that is returned.
unfoldable pub sig_to_der : Bytes → Option (Bytes × ℕ)
unfolding integer_content
sig_to_der sig = do
  r ← integer_content sig
  s ← integer_content (drop 32 sig)
  let len1 = length r % 256
  let len2 = length s % 256
  let len = (len1 + len2 + 4) % 256
  some (0x30 ∷ len ∷ 0x02 ∷ len1 ∷ (r ++ 0x02 ∷ len2 ∷ s), len + 2)

-- The status -1, or a result.
pub data Status (A : Type 0) : Type 0 where
  rejected : Status A
  accepted : A → Status A

-- The bytes of an integer at the front of 32, and the pointer behind them.
pub padded : ℕ → Bytes → Option (Status (Bytes × Bytes))
padded len p = do value ← copy len p; some (accepted (replicate (32 - len) 0 ++ value, drop len p))

-- A zero in front is skipped, and the length counts one less.
pub unpad : ℕ → Bytes → Option (Status (Bytes × Bytes))
unfolding padded
unpad len [] = none
unpad len (b ∷ p) = if b == 0 then padded ((len + 255) % 256) p else padded len (b ∷ p)

pub read_length : Bytes → Option (Status (Bytes × Bytes))
unfolding unpad
read_length [] = none
read_length (len ∷ p) = unpad len p

pub read_integer : Bytes → Option (Status (Bytes × Bytes))
unfolding read_length
read_integer [] = none
read_integer (tag ∷ p) = if tag == 0x02 then read_length p else some rejected

-- The second integer, behind what is written of the first.
pub second : Status (Bytes × Bytes) → Option (Status (Bytes × ℕ))
unfolding read_integer
second rejected = some rejected
second (accepted (r, p)) = if ltb 64 (length r) then none else do
  result ← read_integer p
  elim result [
    | rejected ↦ some rejected
    | accepted (s, q) ↦
        if ltb 64 (length r + length s)
        then none
        else some (accepted (r ++ s, (length r + length s) % 256))
  ]

pub sequence : Bytes → Option (Status (Bytes × ℕ))
unfolding second
sequence [] = none
sequence (len ∷ p) = do r ← read_integer p; second r

-- What is written to the signature, and the number of bytes that is returned.
unfoldable pub der_to_sig : Bytes → Option (Status (Bytes × ℕ))
unfolding sequence
der_to_sig [] = none
der_to_sig (tag ∷ p) = if tag == 0x30 then sequence p else some rejected

-- ===== src/Hexstring.antt =====
-- `strToHex` and `hexToStr` of native-crypto/hexstring.c. A `char` is an unsigned byte, as it is
-- on ARM. The result is what is written to the output buffer, from its first byte on; a read past
-- the input is a fault (`none`).
pub mod RoundTrip
pub mod Reprint
use chain_wallet.Common.{
  ℕ, zero, suc, ◌+◌, ◌-◌, ◌*◌, ◌/◌, ◌%◌, ◌&&◌, Option, none, some, [], ◌∷◌, ◌++◌, Bytes, ltb, leb,
  ◌==◌, if◌then◌else◌,
}
use chain_wallet.Common.Chain.{◌>>=◌}

-- The C library's, in the C locale.
pub toupper : ℕ → ℕ
toupper c = if leb b'a' c && leb c b'z' then c - 32 else c

-- `toupper(h) - 0x30`, less 7 above 9.
pub hex_value : ℕ → ℕ
unfolding toupper
hex_value c = let s = (toupper c + 256 - 0x30) % 256 in if ltb 9 s then (s + 256 - 7) % 256 else s

-- The loop reads two characters and writes one byte in each of its `n` rounds.
unfoldable pub str_to_hex : Bytes → ℕ → Option Bytes
unfolding hex_value
str_to_hex src zero = some []
str_to_hex [] (suc n) = none
str_to_hex (h1 ∷ []) (suc n) = none
str_to_hex (h1 ∷ h2 ∷ src) (suc n) = do
  rest ← str_to_hex src n
  some (((hex_value h1 * 16 + hex_value h2) % 256) ∷ rest)

-- `48 + d`, moved up to a letter above '9'.
unfoldable pub hex_digit : ℕ → ℕ → ℕ
hex_digit lower d = let c = 48 + d in if ltb 57 c && ltb c 96 then c + 7 + lower else c

-- The loop, without the NUL that follows it.
pub hex_digits : Bytes → ℕ → ℕ → Option Bytes
unfolding hex_digit
hex_digits src zero lower = some []
hex_digits [] (suc n) lower = none
hex_digits (b ∷ src) (suc n) lower = do
  rest ← hex_digits src n lower
  some (hex_digit lower (b / 16) ∷ hex_digit lower (b % 16) ∷ rest)

unfoldable pub hex_to_str : Bytes → ℕ → ℕ → Option Bytes
unfolding hex_digits
hex_to_str src n is_lower = do
  text ← hex_digits src n (if is_lower == 0 then 0 else 32)
  some (text ++ 0 ∷ [])

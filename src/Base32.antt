-- ===== src/Base32.antt =====
-- native-crypto/base32.c for the alphabet of RFC 4648, the only one that is passed to it. The
-- result of a function is what it writes to its output, from the first byte on; `none` is NULL or
-- false. Shifts and masks are written by / * and %; an | joins fields that share no bit, so it is +.
pub mod RoundTrip
pub mod Digits
pub mod Groups
pub mod Accepted
pub mod Padded
use chain_wallet.Common.{
  ℕ, zero, suc, ◌+◌, ◌-◌, ◌*◌, ◌/◌, ◌%◌, ◌&&◌, Bool, true, false, Option, none, some, [], ◌∷◌, ◌++◌,
  Bytes, length, take, ltb, leb, ◌==◌, if◌then◌else◌,
}
use chain_wallet.Common.Chain.{◌>>=◌}

unfoldable pub base32_encoded_length : ℕ → ℕ
base32_encoded_length n = n / 5 * 8 + (n % 5 * 8 + 4) / 5

unfoldable pub base32_decoded_length : ℕ → ℕ
base32_decoded_length n = n / 8 * 5 + n % 8 * 5 / 8

-- One group of up to five bytes.
pub base32_5to8 : Bytes → Bytes
base32_5to8 [] = []
base32_5to8 (a ∷ []) = a / 8 ∷ a % 8 * 4 ∷ []
base32_5to8 (a ∷ b ∷ []) = a / 8 ∷ (a % 8 * 4 + b / 64) ∷ b / 2 % 32 ∷ b % 2 * 16 ∷ []
base32_5to8 (a ∷ b ∷ c ∷ []) =
    a / 8 ∷ (a % 8 * 4 + b / 64) ∷ b / 2 % 32 ∷ (b % 2 * 16 + c / 16) ∷ c % 16 * 2 ∷ []
base32_5to8 (a ∷ b ∷ c ∷ d ∷ []) =
    a / 8
    ∷ (a % 8 * 4 + b / 64)
    ∷ b / 2 % 32
    ∷ (b % 2 * 16 + c / 16)
    ∷ (c % 16 * 2 + d / 128)
    ∷ d / 4 % 32
    ∷ d % 4 * 8
    ∷ []
base32_5to8 (a ∷ b ∷ c ∷ d ∷ e ∷ _) =
    a / 8
    ∷ (a % 8 * 4 + b / 64)
    ∷ b / 2 % 32
    ∷ (b % 2 * 16 + c / 16)
    ∷ (c % 16 * 2 + d / 128)
    ∷ d / 4 % 32
    ∷ (d % 4 * 8 + e / 32)
    ∷ e % 32
    ∷ []

-- Groups of five, and then what remains.
pub base32_encode_unsafe : Bytes → Bytes
unfolding base32_5to8
base32_encode_unsafe (a ∷ b ∷ c ∷ d ∷ e ∷ rest) =
    base32_5to8 (a ∷ b ∷ c ∷ d ∷ e ∷ []) ++ base32_encode_unsafe rest
base32_encode_unsafe rest = base32_5to8 rest

pub base32_encode_character : ℕ → Option ℕ
base32_encode_character decoded =
    if leb 32 decoded
    then none
    else some (if ltb decoded 26 then b'A' + decoded else b'2' + decoded - 26)

pub encode_characters : Bytes → Option Bytes
unfolding base32_encode_character
encode_characters [] = some []
encode_characters (v ∷ vs) = do
  c ← base32_encode_character v
  rest ← encode_characters vs
  some (c ∷ rest)

-- The text, without the NUL behind it.
unfoldable pub base32_encode : Bytes → ℕ → Option Bytes
unfolding base32_encoded_length base32_encode_unsafe encode_characters
base32_encode input outlen =
    if leb outlen (base32_encoded_length (length input))
    then none
    else encode_characters (base32_encode_unsafe input)

-- `while (length % 8)`, of at most eight rounds.
pub pad : ℕ → ℕ → Bytes
pad zero n = []
pad (suc rounds) n = let more = pad rounds (n + 1) in if n % 8 == 0 then [] else b'=' ∷ more

-- The text with its NUL. Nothing tests that the padding fits into `outlen`.
unfoldable pub base32_encode_padding : Bytes → ℕ → Bool → Option Bytes
unfolding base32_encode pad
base32_encode_padding input outlen has_padding = do
  text ← base32_encode input outlen
  some (text ++ (if has_padding then pad 8 (length text) else []) ++ 0 ∷ [])

pub base32_decode_character : ℕ → Option ℕ
base32_decode_character c =
    if leb b'A' c && leb c b'Z'
    then some (c - b'A')
    else if leb b'a' c && leb c b'z'
    then some (c - b'a')
    else if leb b'2' c && leb c b'7'
    then some (c - b'2' + 26)
    else none

pub decode_characters : Bytes → Option Bytes
unfolding base32_decode_character
decode_characters [] = some []
decode_characters (c ∷ cs) = do
  v ← base32_decode_character c
  rest ← decode_characters cs
  some (v ∷ rest)

-- One group of two, four, five, seven or eight values; a `uint8_t` wraps at 256.
pub base32_8to5_raw : Bytes → Option Bytes
base32_8to5_raw (a ∷ b ∷ []) = some ((a * 8 % 256 + b / 4) ∷ [])
base32_8to5_raw (a ∷ b ∷ c ∷ d ∷ []) =
    some ((a * 8 % 256 + b / 4) ∷ (b % 4 * 64 + c * 2 % 256 + d / 16) ∷ [])
base32_8to5_raw (a ∷ b ∷ c ∷ d ∷ e ∷ []) =
    some ((a * 8 % 256 + b / 4) ∷ (b % 4 * 64 + c * 2 % 256 + d / 16) ∷ (d % 16 * 16 + e / 2) ∷ [])
base32_8to5_raw (a ∷ b ∷ c ∷ d ∷ e ∷ f ∷ g ∷ []) = some (
    (a * 8 % 256 + b / 4)
    ∷ (b % 4 * 64 + c * 2 % 256 + d / 16)
    ∷ (d % 16 * 16 + e / 2)
    ∷ (e % 2 * 128 + f * 4 % 256 + g / 8)
    ∷ [])
base32_8to5_raw (a ∷ b ∷ c ∷ d ∷ e ∷ f ∷ g ∷ h ∷ []) = some (
    (a * 8 % 256 + b / 4)
    ∷ (b % 4 * 64 + c * 2 % 256 + d / 16)
    ∷ (d % 16 * 16 + e / 2)
    ∷ (e % 2 * 128 + f * 4 % 256 + g / 8)
    ∷ (g % 8 * 32 + h % 32)
    ∷ [])
base32_8to5_raw _ = none

pub base32_8to5 : Bytes → Option Bytes
unfolding decode_characters base32_8to5_raw
base32_8to5 group = do values ← decode_characters group; base32_8to5_raw values

-- Groups of eight, and then what remains, if something does.
pub base32_decode_unsafe : Bytes → Option Bytes
unfolding base32_8to5
base32_decode_unsafe [] = some []
base32_decode_unsafe (a ∷ b ∷ c ∷ d ∷ e ∷ f ∷ g ∷ h ∷ rest) = do
  first ← base32_8to5 (a ∷ b ∷ c ∷ d ∷ e ∷ f ∷ g ∷ h ∷ [])
  more ← base32_decode_unsafe rest
  some (first ++ more)
base32_decode_unsafe rest = base32_8to5 rest

unfoldable pub base32_decode : Bytes → ℕ → Option Bytes
unfolding base32_decoded_length base32_decode_unsafe
base32_decode input outlen =
    if ltb outlen (base32_decoded_length (length input)) then none else base32_decode_unsafe input

-- `while (inlen && in[inlen - 1] == '=') inlen--`
pub trim : Bytes → Bytes
trim [] = []
trim (c ∷ s) = elim (trim s) [ [] ↦ if c == b'=' then [] else c ∷ [] | d ∷ t ↦ c ∷ d ∷ t ]

-- What is written. The pointer behind it, moved back over zeros where there is no padding, is NULL
-- if and only if that of `base32_decode` is.
unfoldable pub base32_decode_padding : Bytes → ℕ → Option Bytes
unfolding trim base32_decode
base32_decode_padding input outlen = base32_decode (trim input) outlen

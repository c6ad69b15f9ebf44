-- ===== src/Base32/RoundTrip.antt =====
-- Base32 text is read back.
use mathlib.Core.List.{map}
use chain_wallet.Common.{
  ℕ, ltb, leb, if◌then◌else◌, false, length-map, ◌+◌, ◌-◌, ◌<◌, ◌≡◌, ◌≢◌, ◌%◌, refl, ap, ◌∙◌, some,
  [], ◌∷◌, Bytes, All, All-append, IsBytes, length, arith,
}
use chain_wallet.Common.Chain.{◌>>=◌}
use chain_wallet.Base32.{
  base32_encoded_length, base32_decoded_length, base32_5to8, base32_encode_unsafe,
  base32_encode_character, encode_characters, base32_encode, base32_decode_character,
  decode_characters, base32_8to5_raw, base32_8to5, base32_decode_unsafe, base32_decode, pad,
}

pub base32_decode_character-encode :
    (v : ℕ) → v < 32 → (base32_encode_character v >>= base32_decode_character) ≡ some v
unfolding base32_encode_character base32_decode_character
base32_decode_character-encode v h = ground arith

-- the character of a value below 32
abbrev pub symbol : ℕ → ℕ
symbol v = if ltb v 26 then b'A' + v else b'2' + v - 26

abbrev pub Below32 : Bytes → Type 0
Below32 = All (λ v. v < 32)

encode_characters-symbols : (vs : Bytes) → Below32 vs → encode_characters vs ≡ some (map symbol vs)
unfolding encode_characters base32_encode_character
encode_characters-symbols [] h = refl
encode_characters-symbols (v ∷ vs) (hv, h) =
    let small : leb 32 v ≡ false = ground arith in rw (encode_characters-symbols vs h, small)

decode_character-symbol : (v : ℕ) → v < 32 → base32_decode_character (symbol v) ≡ some v
unfolding base32_decode_character
decode_character-symbol v h = ground arith

decode_characters-symbols : (vs : Bytes) → Below32 vs → decode_characters (map symbol vs) ≡ some vs
unfolding decode_characters
decode_characters-symbols [] h = refl
decode_characters-symbols (v ∷ vs) (hv, h) =
    rw (decode_character-symbol v hv, decode_characters-symbols vs h)

raw_one : (a : ℕ) → IsBytes (a ∷ []) → base32_8to5_raw (base32_5to8 (a ∷ [])) ≡ some (a ∷ [])
unfolding base32_8to5_raw base32_5to8
raw_one a h = ground arith

raw_two :
    (a b : ℕ)
    → IsBytes (a ∷ b ∷ [])
    → base32_8to5_raw (base32_5to8 (a ∷ b ∷ [])) ≡ some (a ∷ b ∷ [])
unfolding base32_8to5_raw base32_5to8
raw_two a b h = ground arith

raw_three :
    (a b c : ℕ)
    → IsBytes (a ∷ b ∷ c ∷ [])
    → base32_8to5_raw (base32_5to8 (a ∷ b ∷ c ∷ [])) ≡ some (a ∷ b ∷ c ∷ [])
unfolding base32_8to5_raw base32_5to8
raw_three a b c h = ground arith

raw_four :
    (a b c d : ℕ)
    → IsBytes (a ∷ b ∷ c ∷ d ∷ [])
    → base32_8to5_raw (base32_5to8 (a ∷ b ∷ c ∷ d ∷ [])) ≡ some (a ∷ b ∷ c ∷ d ∷ [])
unfolding base32_8to5_raw base32_5to8
raw_four a b c d h = ground arith

raw_five :
    (a b c d e : ℕ)
    → IsBytes (a ∷ b ∷ c ∷ d ∷ e ∷ [])
    → base32_8to5_raw (base32_5to8 (a ∷ b ∷ c ∷ d ∷ e ∷ [])) ≡ some (a ∷ b ∷ c ∷ d ∷ e ∷ [])
unfolding base32_8to5_raw base32_5to8
raw_five a b c d e h = ground arith

group-Below32 : (g : Bytes) → IsBytes g → Below32 (base32_5to8 g)
unfolding base32_5to8
group-Below32 [] h = tt
group-Below32 (a ∷ []) h = ground arith
group-Below32 (a ∷ b ∷ []) h = ground arith
group-Below32 (a ∷ b ∷ c ∷ []) h = ground arith
group-Below32 (a ∷ b ∷ c ∷ d ∷ []) h = ground arith
group-Below32 (a ∷ b ∷ c ∷ d ∷ e ∷ rest) h = ground arith

group_back :
    (g : Bytes)
    → IsBytes g
    → base32_8to5_raw (base32_5to8 g) ≡ some g
    → base32_8to5 (map symbol (base32_5to8 g)) ≡ some g
unfolding base32_8to5
group_back g h e = rw (decode_characters-symbols (base32_5to8 g) (group-Below32 g h)) e

pub encode_unsafe-Below32 : (x : Bytes) → IsBytes x → Below32 (base32_encode_unsafe x)
unfolding base32_encode_unsafe
encode_unsafe-Below32 ([]) h = group-Below32 ([]) h
encode_unsafe-Below32 (a ∷ []) h = group-Below32 (a ∷ []) h
encode_unsafe-Below32 (a ∷ b ∷ []) h = group-Below32 (a ∷ b ∷ []) h
encode_unsafe-Below32 (a ∷ b ∷ c ∷ []) h = group-Below32 (a ∷ b ∷ c ∷ []) h
encode_unsafe-Below32 (a ∷ b ∷ c ∷ d ∷ []) h = group-Below32 (a ∷ b ∷ c ∷ d ∷ []) h
encode_unsafe-Below32 (a ∷ b ∷ c ∷ d ∷ e ∷ rest) (ha, (hb, (hc, (hd, (he, h))))) =
    All-append _ (base32_5to8 (a ∷ b ∷ c ∷ d ∷ e ∷ [])) (base32_encode_unsafe rest)
      (group-Below32 (a ∷ b ∷ c ∷ d ∷ e ∷ []) (ha, (hb, (hc, (hd, (he, tt))))))
      (encode_unsafe-Below32 rest h)

decode_unsafe-encode_unsafe :
    (x : Bytes) → IsBytes x → base32_decode_unsafe (map symbol (base32_encode_unsafe x)) ≡ some x
unfolding base32_decode_unsafe base32_encode_unsafe base32_5to8
decode_unsafe-encode_unsafe [] h = refl
decode_unsafe-encode_unsafe (a ∷ []) h = group_back (a ∷ []) h (raw_one a h)
decode_unsafe-encode_unsafe (a ∷ b ∷ []) h = group_back (a ∷ b ∷ []) h (raw_two a b h)
decode_unsafe-encode_unsafe (a ∷ b ∷ c ∷ []) h = group_back (a ∷ b ∷ c ∷ []) h (raw_three a b c h)
decode_unsafe-encode_unsafe (a ∷ b ∷ c ∷ d ∷ []) h =
    group_back (a ∷ b ∷ c ∷ d ∷ []) h (raw_four a b c d h)
decode_unsafe-encode_unsafe (a ∷ b ∷ c ∷ d ∷ e ∷ rest) (ha, (hb, (hc, (hd, (he, h))))) =
    let five : IsBytes (a ∷ b ∷ c ∷ d ∷ e ∷ []) = (ha, (hb, (hc, (hd, (he, tt))))) in
    rw (
      group_back (a ∷ b ∷ c ∷ d ∷ e ∷ []) five (raw_five a b c d e five),
      decode_unsafe-encode_unsafe rest h,
    )

pub length-encode_unsafe :
    (x : Bytes) → length (base32_encode_unsafe x) ≡ base32_encoded_length (length x)
unfolding base32_encode_unsafe base32_5to8 base32_encoded_length
length-encode_unsafe ([]) = refl
length-encode_unsafe (a ∷ []) = refl
length-encode_unsafe (a ∷ b ∷ []) = refl
length-encode_unsafe (a ∷ b ∷ c ∷ []) = refl
length-encode_unsafe (a ∷ b ∷ c ∷ d ∷ []) = refl
length-encode_unsafe (a ∷ b ∷ c ∷ d ∷ e ∷ rest) = omega (arith, length-encode_unsafe rest)

-- With room for its NUL the text of any bytes is written; it is as long as
-- `base32_encoded_length` says.
pub base32_encode-total :
    (x : Bytes) (outlen : ℕ)
    → IsBytes x
    → base32_encoded_length (length x) < outlen
    → (text : Bytes) × (base32_encode x outlen ≡ some text)
      × (length text ≡ base32_encoded_length (length x))
unfolding base32_encode
base32_encode-total x outlen h room =
    let test : leb outlen (base32_encoded_length (length x)) ≡ false = ground arith in
    (
      map symbol (base32_encode_unsafe x),
      rw test (encode_characters-symbols (base32_encode_unsafe x) (encode_unsafe-Below32 x h)),
      length-map symbol (base32_encode_unsafe x) ∙ length-encode_unsafe x,
    )

pub base32_encode-symbols :
    (x text : Bytes) (outlen : ℕ)
    → IsBytes x
    → base32_encode x outlen ≡ some text
    → text ≡ map symbol (base32_encode_unsafe x)
unfolding base32_encode
base32_encode-symbols x text outlen h e =
    ground (arith, encode_characters-symbols (base32_encode_unsafe x) (encode_unsafe-Below32 x h))

-- The lengths agree: text of the length of n bytes is decoded to n bytes.
pub decoded_length-encoded_length : (n : ℕ) → base32_decoded_length (base32_encoded_length n) ≡ n
unfolding base32_decoded_length base32_encoded_length
decoded_length-encoded_length n = omega arith

-- Every text that `base32_encode` writes is decoded to the bytes that it was given.
pub base32_decode-encode :
    (x text : Bytes) (outlen : ℕ)
    → IsBytes x
    → base32_encode x outlen ≡ some text
    → base32_decode text (length x) ≡ some x
unfolding base32_decode
base32_decode-encode x text outlen h e =
    let same = base32_encode-symbols x text outlen h e in
    let long : length text ≡ base32_encoded_length (length x) =
      ap length same ∙ length-map symbol (base32_encode_unsafe x) ∙ length-encode_unsafe x in
    let test : ltb (length x) (base32_decoded_length (length text)) ≡ false =
      rw (long, decoded_length-encoded_length (length x)) (ground arith) in
    rw (test, same) (decode_unsafe-encode_unsafe x h)

-- A text that is not whole gets an '='.
pub length-pad : (n : ℕ) → n % 8 ≢ 0 → 0 < length (pad 8 n)
unfolding pad
length-pad n h = ground arith

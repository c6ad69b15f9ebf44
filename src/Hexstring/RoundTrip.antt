-- ===== src/Hexstring/RoundTrip.antt =====
-- Hexadecimal text is read back, in either case of its letters.
use chain_wallet.Common.{
  Option-cases, ℕ, zero, if◌then◌else◌, ◌==◌, suc, ◌+◌, ◌*◌, ◌/◌, ◌%◌, ◌<◌, ◌≡◌, refl, ap, ◌∙◌, ◌⊎◌,
  inl, inr, some, [], ◌∷◌, ◌++◌, Bytes, IsBytes, length, length-append, arith,
}
use mathlib.Core.List.{map}
use chain_wallet.Common.Chain.{◌>>=◌}
use chain_wallet.Hexstring.{toupper, hex_value, str_to_hex, hex_digit, hex_digits, hex_to_str}

hex_value-hex_digit_lower : (d : ℕ) → d < 16 → hex_value (hex_digit 32 d) ≡ d
unfolding hex_value hex_digit
hex_value-hex_digit_lower d h = ground arith

hex_value-hex_digit_upper : (d : ℕ) → d < 16 → hex_value (hex_digit 0 d) ≡ d
unfolding hex_value hex_digit
hex_value-hex_digit_upper d h = ground arith

-- the shift of the letters is one of the two that `hexToStr` uses
abbrev pub IsShift : ℕ → Type 0
IsShift lower = (lower ≡ 0) ⊎ (lower ≡ 32)

hex_value-hex_digit : (lower d : ℕ) → IsShift lower → d < 16 → hex_value (hex_digit lower d) ≡ d
hex_value-hex_digit lower d (inl e) h =
    ap (λ l. hex_value (hex_digit l d)) e ∙ hex_value-hex_digit_upper d h
hex_value-hex_digit lower d (inr e) h =
    ap (λ l. hex_value (hex_digit l d)) e ∙ hex_value-hex_digit_lower d h

-- the text of a byte string, high half first
abbrev pub spell : ℕ → Bytes → Bytes
spell lower [] = []
spell lower (b ∷ bs) = hex_digit lower (b / 16) ∷ hex_digit lower (b % 16) ∷ spell lower bs

hex_digits-spell :
    (lower : ℕ) (bs : Bytes) → hex_digits bs (length bs) lower ≡ some (spell lower bs)
unfolding hex_digits
hex_digits-spell lower [] = refl
hex_digits-spell lower (b ∷ bs) = rw (hex_digits-spell lower bs)

pub str_to_hex-spell :
    (lower : ℕ) (bs rest : Bytes)
    → IsShift lower
    → IsBytes bs
    → str_to_hex (spell lower bs ++ rest) (length bs) ≡ some bs
unfolding str_to_hex
str_to_hex-spell lower [] rest l h = refl
str_to_hex-spell lower (b ∷ bs) rest l (hb, h) =
    rw
      (
        str_to_hex-spell lower bs rest l h,
        hex_value-hex_digit lower (b / 16) l (omega arith),
        hex_value-hex_digit lower (b % 16) l (omega arith),
      )
      (ap (λ x. some (x ∷ bs)) (omega arith))

-- `hexToStr` writes the text of the bytes and a NUL.
pub hex_to_str-spell :
    (bs : Bytes) (is_lower : ℕ)
    → hex_to_str bs (length bs) is_lower
      ≡ some (spell (if is_lower == 0 then 0 else 32) bs ++ 0 ∷ [])
unfolding hex_to_str
hex_to_str-spell bs is_lower = rw (hex_digits-spell (if is_lower == 0 then 0 else 32) bs)

flag-IsShift : (is_lower : ℕ) → IsShift (if is_lower == 0 then 0 else 32)
flag-IsShift zero = inl refl
flag-IsShift (suc n) = inr (ground arith)

-- Whatever bytes `hexToStr` prints, in lower or in upper case, `strToHex` reads back.
pub str_to_hex-hex_to_str :
    (bs : Bytes) (is_lower : ℕ)
    → IsBytes bs
    → (hex_to_str bs (length bs) is_lower >>= λ text. str_to_hex text (length bs)) ≡ some bs
str_to_hex-hex_to_str bs is_lower h =
    rw (hex_to_str-spell bs is_lower) (str_to_hex-spell _ bs (0 ∷ []) (flag-IsShift is_lower) h)

pub length-spell : (lower : ℕ) (bs : Bytes) → length (spell lower bs) ≡ 2 * length bs
length-spell lower [] = refl
length-spell lower (b ∷ bs) = omega (arith, length-spell lower bs)

-- with its NUL the text of n bytes is 2n + 1 bytes long
pub length-spell_nul :
    (lower : ℕ) (bs : Bytes) → length (spell lower bs ++ 0 ∷ []) ≡ 2 * length bs + 1
length-spell_nul lower bs =
    length-append (spell lower bs) (0 ∷ []) ∙ omega (arith, length-spell lower bs)

-- Reading does not tell upper from lower case.
hex_value-toupper : (c : ℕ) → c < 256 → hex_value (toupper c) ≡ hex_value c
unfolding hex_value toupper
hex_value-toupper c h = ground arith

-- A text and its upper case spelling stand for the same bytes, characters that are no digits
-- included
pub str_to_hex-toupper :
    (src : Bytes) (n : ℕ) → IsBytes src → str_to_hex (map toupper src) n ≡ str_to_hex src n
unfolding str_to_hex
str_to_hex-toupper src zero h = refl
str_to_hex-toupper [] (suc n) h = refl
str_to_hex-toupper (a ∷ []) (suc n) h = refl
str_to_hex-toupper (a ∷ b ∷ src) (suc n) (ha, (hb, h)) =
    rw (str_to_hex-toupper src n h, hex_value-toupper a ha, hex_value-toupper b hb)

-- As many bytes as there are rounds.
pub length-str_to_hex :
    (src : Bytes) (n : ℕ) {bytes : Bytes} → str_to_hex src n ≡ some bytes → length bytes ≡ n
unfolding str_to_hex
length-str_to_hex src zero h = ground arith
length-str_to_hex [] (suc n) h = cc
length-str_to_hex (a ∷ []) (suc n) h = cc
length-str_to_hex (a ∷ b ∷ src) (suc n) {bytes} h = elim (Option-cases (str_to_hex src n)) [
  | inl e ↦ let fault = rw e at h in cc
  | inr (rest, e) ↦
      let same : ((hex_value a * 16 + hex_value b) % 256) ∷ rest ≡ bytes =
        let made = rw e at h in cc in
      rw (← same) (ap suc (length-str_to_hex src n e))
]

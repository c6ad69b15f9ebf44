-- ===== src/Hexstring/Reprint.antt =====
-- Hexadecimal text that is read and printed again.
use mathlib.Core.List.{map}
use chain_wallet.Common.{
  ℕ, zero, suc, ◌+◌, ◌*◌, ◌/◌, ◌%◌, ◌<◌, ◌≡◌, refl, sym, ap, ◌∙◌, Bool, true, ◌&&◌, ◌||◌, some, [],
  ◌∷◌, ◌++◌, Bytes, length, leb, ◌==◌, if◌then◌else◌, arith, Bool-cases, inl, inr,
}
use chain_wallet.Common.Chain.{◌>>=◌}
use chain_wallet.Hexstring.{toupper, hex_value, str_to_hex, hex_digit, hex_to_str}
use chain_wallet.Hexstring.RoundTrip.{spell, hex_to_str-spell, length-str_to_hex}

abbrev pub is_hex : ℕ → Bool
is_hex c = leb b'0' c && leb c b'9' || (leb b'A' c && leb c b'F' || leb b'a' c && leb c b'f')

abbrev pub are_hex : Bytes → Bool
are_hex [] = true
are_hex (c ∷ cs) = is_hex c && are_hex cs

abbrev pub tolower : ℕ → ℕ
tolower c = if leb b'A' c && leb c b'Z' then c + 32 else c

-- The case that the flag of `hexToStr` selects.
abbrev pub in_case : ℕ → ℕ → ℕ
in_case is_lower c = if is_lower == 0 then toupper c else tolower c

hex_value-lt : (c : ℕ) → is_hex c ≡ true → hex_value c < 16
unfolding hex_value toupper
hex_value-lt c h = ground arith

upper_digit : (c : ℕ) → is_hex c ≡ true → hex_digit 0 (hex_value c) ≡ toupper c
unfolding hex_digit hex_value toupper
upper_digit c h = ground arith

lower_digit : (c : ℕ) → is_hex c ≡ true → hex_digit 32 (hex_value c) ≡ tolower c
unfolding hex_digit hex_value toupper
lower_digit c h = ground arith

digit_again :
    (is_lower c : ℕ)
    → is_hex c ≡ true
    → hex_digit (if is_lower == 0 then 0 else 32) (hex_value c) ≡ in_case is_lower c
digit_again is_lower c h = elim (Bool-cases (is_lower == 0)) [
  | inl e ↦ rw e (upper_digit c h)
  | inr e ↦ rw e (lower_digit c h)
]

-- The bytes of a text of digits spell the text in the case that is asked for.
reread :
    (is_lower n : ℕ) (text : Bytes)
    → are_hex text ≡ true
    → length text ≡ 2 * n
    → (bytes : Bytes) × (str_to_hex text n ≡ some bytes)
      × (spell (if is_lower == 0 then 0 else 32) bytes ≡ map (in_case is_lower) text)
unfolding str_to_hex
reread is_lower zero [] h e = ([], refl, refl)
reread is_lower (suc n) [] h e = absurd (omega arith)
reread is_lower zero (a ∷ text) h e = absurd (omega arith)
reread is_lower (suc n) (a ∷ []) h e = absurd (omega arith)
reread is_lower (suc n) (a ∷ b ∷ text) h e =
    let ha : is_hex a ≡ true = ground arith in
    let hb : is_hex b ≡ true = ground arith in
    let (bytes, read, same) = reread is_lower n text (ground arith) (omega arith) in
    let x = (hex_value a * 16 + hex_value b) % 256 in
    let high : x / 16 ≡ hex_value a = omega (arith, hex_value-lt a ha, hex_value-lt b hb) in
    let low : x % 16 ≡ hex_value b = omega (arith, hex_value-lt a ha, hex_value-lt b hb) in
    (
      x ∷ bytes,
      rw read refl,
      rw (high, low, digit_again is_lower a ha, digit_again is_lower b hb, same) refl,
    )

-- `hexToStr` of what `strToHex` reads from an even number of hexadecimal digits, in either case, is the
-- text again, in the case that its flag selects.
pub hex_to_str-str_to_hex :
    (text : Bytes) (n is_lower : ℕ)
    → are_hex text ≡ true
    → length text ≡ 2 * n
    → (str_to_hex text n >>= λ bytes. hex_to_str bytes n is_lower)
      ≡ some (map (in_case is_lower) text ++ 0 ∷ [])
hex_to_str-str_to_hex text n is_lower h e =
    let (bytes, read, same) = reread is_lower n text h e in
    let long = length-str_to_hex text n read in
    rw read (
      ap (λ k. hex_to_str bytes k is_lower) (sym long)
      ∙ hex_to_str-spell bytes is_lower
      ∙ ap (λ t. some (t ++ 0 ∷ [])) same)

-- ===== src/Base32/Groups.antt =====
-- What base32.c makes of one group of characters: up to eight letters of the alphabet, in upper or lower
-- case.
use chain_wallet.Common.{
  ℕ, suc, ◌+◌, ◌-◌, ◌%◌, ◌<◌, ◌≡◌, refl, ap, ◌∙◌, Bool, true, false, ◌&&◌, ◌||◌, not, none, some,
  [], ◌∷◌, Bytes, length, IsBytes, leb, ◌==◌, arith, Bool-cases, inl, inr,
}
use chain_wallet.Base32.{
  base32_decoded_length, base32_decode_character, decode_characters, base32_8to5_raw, base32_8to5,
}
use chain_wallet.Base32.RoundTrip.{Below32}

abbrev pub is_letter : ℕ → Bool
is_letter c = leb b'A' c && leb c b'Z' || (leb b'a' c && leb c b'z' || leb b'2' c && leb c b'7')

abbrev pub are_letters : Bytes → Bool
are_letters [] = true
are_letters (c ∷ cs) = is_letter c && are_letters cs

-- The lengths of a last group.
abbrev pub is_whole : ℕ → Bool
is_whole n = not (n % 8 == 1 || (n % 8 == 3 || n % 8 == 6))

read_letter :
    (c : ℕ) → is_letter c ≡ true → (v : ℕ) × (base32_decode_character c ≡ some v) × (v < 32)
unfolding base32_decode_character
read_letter c h = elim (Bool-cases (leb b'A' c && leb c b'Z')) [
  | inl upper ↦ (c - b'A', rw upper refl, ground arith)
  | inr not_upper ↦ elim (Bool-cases (leb b'a' c && leb c b'z')) [
    | inl lower ↦ (c - b'a', rw (not_upper, lower) refl, ground arith)
    | inr not_lower ↦ (c - b'2' + 26, ground arith, ground arith)
  ]
]

read_other : (c : ℕ) → is_letter c ≡ false → base32_decode_character c ≡ none
unfolding base32_decode_character
read_other c h = ground arith

pub read_letters :
    (cs : Bytes)
    → are_letters cs ≡ true
    → (vs : Bytes) × (decode_characters cs ≡ some vs) × (length vs ≡ length cs) × Below32 vs
unfolding decode_characters
read_letters [] h = ([], refl, refl, tt)
read_letters (c ∷ cs) h =
    let (v, e, small) = read_letter c (ground arith) in
    let (vs, es, same, others) = read_letters cs (ground arith) in
    (v ∷ vs, rw (e, es) refl, ap suc same, (small, others))

read_others : (cs : Bytes) → are_letters cs ≡ false → decode_characters cs ≡ none
unfolding decode_characters
read_others [] h = cc
read_others (c ∷ cs) h = elim (Bool-cases (is_letter c)) [
  | inl e ↦ let (v, read, small) = read_letter c e in rw (read, read_others cs (ground arith)) refl
  | inr e ↦ rw (read_other c e) refl
]

-- A group of values.
unfoldable pub is_group : ℕ → Bool
is_group n = n == 2 || (n == 4 || (n == 5 || (n == 7 || n == 8)))

abbrev pub Read : Bytes → Bytes → Type 0
Read text bytes = (length bytes ≡ base32_decoded_length (length text)) × IsBytes bytes

raw_total :
    (vs : Bytes)
    → Below32 vs
    → is_group (length vs) ≡ true
    → (bytes : Bytes) × (base32_8to5_raw vs ≡ some bytes) × Read vs bytes
unfolding base32_8to5_raw base32_decoded_length is_group
raw_total (a ∷ b ∷ []) h g = (_, refl, (refl, ground arith))
raw_total (a ∷ b ∷ c ∷ d ∷ []) h g = (_, refl, (refl, ground arith))
raw_total (a ∷ b ∷ c ∷ d ∷ e ∷ []) h g = (_, refl, (refl, ground arith))
raw_total (a ∷ b ∷ c ∷ d ∷ e ∷ f ∷ i ∷ []) h g = (_, refl, (refl, ground arith))
raw_total (a ∷ b ∷ c ∷ d ∷ e ∷ f ∷ i ∷ j ∷ []) h g = (_, refl, (refl, ground arith))
raw_total [] h g = cc
raw_total (a ∷ []) h g = cc
raw_total (a ∷ b ∷ c ∷ []) h g = cc
raw_total (a ∷ b ∷ c ∷ d ∷ e ∷ f ∷ []) h g = cc
raw_total (a ∷ b ∷ c ∷ d ∷ e ∷ f ∷ i ∷ j ∷ k ∷ vs) h g = absurd (ground arith)

raw_none : (vs : Bytes) → is_group (length vs) ≡ false → base32_8to5_raw vs ≡ none
unfolding base32_8to5_raw is_group
raw_none (a ∷ b ∷ []) g = cc
raw_none (a ∷ b ∷ c ∷ d ∷ []) g = cc
raw_none (a ∷ b ∷ c ∷ d ∷ e ∷ []) g = cc
raw_none (a ∷ b ∷ c ∷ d ∷ e ∷ f ∷ i ∷ []) g = cc
raw_none (a ∷ b ∷ c ∷ d ∷ e ∷ f ∷ i ∷ j ∷ []) g = cc
raw_none vs g = refl

pub group_total :
    (cs : Bytes)
    → are_letters cs ≡ true
    → is_group (length cs) ≡ true
    → (bytes : Bytes) × (base32_8to5 cs ≡ some bytes) × Read cs bytes
unfolding base32_8to5
group_total cs h g =
    let (vs, read, same, small) = read_letters cs h in
    let (bytes, made, (sized, are)) = raw_total vs small (rw same g) in
    (bytes, rw (read, made) refl, (sized ∙ ap base32_decoded_length same, are))

-- No group is made of other characters, or of another number of them.
pub group_others : (cs : Bytes) → are_letters cs ≡ false → base32_8to5 cs ≡ none
unfolding base32_8to5
group_others cs h = rw (read_others cs h) refl

pub group_none : (cs : Bytes) → is_group (length cs) ≡ false → base32_8to5 cs ≡ none
unfolding base32_8to5
group_none cs g = elim (Bool-cases (are_letters cs)) [
  | inl h ↦
      let (vs, read, same, small) = read_letters cs h in rw (read, raw_none vs (rw same g)) refl
  | inr h ↦ rw (read_others cs h) refl
]

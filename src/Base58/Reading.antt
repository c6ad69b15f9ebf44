-- ===== src/Base58/Reading.antt =====
-- What `base58_decode` of native-crypto/base58.c makes of any text.
use chain_wallet.Common.{
  ℕ, zero, suc, ◌+◌, ◌-◌, ◌*◌, ◌≤◌, ◌<◌, ◌≡◌, ◌≢◌, refl, sym, ap, ◌∙◌, Option, none, some, [], ◌∷◌,
  ◌++◌, Bytes, All, length, zeros, ltb, true, false, arith, ◌==◌, ==→eq, ◌||◌, Bool, passes_under,
  passes_under-apply, Bool-cases, inl, inr, ◌⊎◌, length-append, length-zeros,
}
use mathlib.Core.Path.{subst}
use chain_wallet.Base58.{index_of, indexes, count_zeros, decode_loop, strip, take_zeros, decode}
use chain_wallet.Base58.Value.{value, Below}
use chain_wallet.Base58.Decode.{decode_loop-total}
use chain_wallet.Base58.Strip.{count_zeros-zeros}

-- What a text of these digits is read as: bytes with no zero in front that are the number, behind as many
-- zeros as the digits have, or a fault.
pub data Reading (ds : Bytes) : Option Bytes → Type 0 where
  only_zeros : ds ≡ zeros (length ds) → Reading ds none
  number :
      (z d b : ℕ) (t p : Bytes)
      → ds ≡ zeros z ++ d ∷ t
      → d ≢ 0
      → b ≢ 0
      → Below 256 (b ∷ p)
      → value 256 0 (b ∷ p) ≡ value 58 0 (d ∷ t)
      → z ≤ length (d ∷ t) - length (b ∷ p)
      → Reading ds (some (zeros z ++ b ∷ p))
  no_room :
      (z d b : ℕ) (t p : Bytes)
      → ds ≡ zeros z ++ d ∷ t
      → d ≢ 0
      → b ≢ 0
      → Below 256 (b ∷ p)
      → value 256 0 (b ∷ p) ≡ value 58 0 (d ∷ t)
      → length (d ∷ t) - length (b ∷ p) < z
      → Reading ds none

-- The table has a digit for each character but NUL.
abbrev is_digit : Option ℕ → Bool
is_digit none = false
is_digit (some i) = ltb i 58

digit_table : passes_under (λ c. c == 0 || is_digit (index_of c)) 128 ≡ true
unfolding passes_under index_of
digit_table = refl

digit_of : (o : Option ℕ) → is_digit o ≡ true → (i : ℕ) × (o ≡ some i) × (i < 58)
digit_of none h = cc
digit_of (some i) h = (i, refl, ground arith)

index_of-total : (c : ℕ) → (c ≢ 0) × (c < 128) → (i : ℕ) × (index_of c ≡ some i) × (i < 58)
index_of-total c (nz, small) =
    let passed =
      passes_under-apply (λ x. x == 0 || is_digit (index_of x)) 128 c small digit_table in
    let test : (c == 0) ≡ false = ground arith in digit_of (index_of c) (rw test at passed)

-- The characters of a C string that the table covers.
abbrev pub IsAscii : Bytes → Type 0
IsAscii = All (λ c. (c ≢ 0) × (c < 128))

indexes-total :
    (text : Bytes)
    → IsAscii text
    → (ds : Bytes) × (indexes text ≡ some ds) × Below 58 ds × (length ds ≡ length text)
unfolding indexes
indexes-total [] h = ([], refl, tt, refl)
indexes-total (c ∷ s) (hc, h) =
    let (i, found, small) = index_of-total c hc in
    let (ds, others, below, same) = indexes-total s h in
    (i ∷ ds, rw (found, others) refl, (small, below), ap suc same)

count_zeros-none : (n : ℕ) → count_zeros (zeros n) ≡ none
unfolding count_zeros
count_zeros-none zero = refl
count_zeros-none (suc n) = rw (count_zeros-none n) refl

-- Digits are zeros, or zeros before one that is none.
front :
    (ds : Bytes)
    → (ds ≡ zeros (length ds))
      ⊎ ((z : ℕ) × (d : ℕ) × (t : Bytes) × (ds ≡ zeros z ++ d ∷ t) × (d ≢ 0))
front [] = inl refl
front (d ∷ ds) = elim (Bool-cases (d == 0)) [
  | inr n ↦ inr (0, d, ds, refl, λ z. ground arith)
  | inl y ↦
      let first : d ≡ 0 = ==→eq d 0 y in
      elim (front ds) [
        | inl same ↦ inl (rw first (ap (λ v. 0 ∷ v) same))
        | inr (z, e, t, same, nz) ↦ inr (suc z, e, t, rw first (ap (λ v. 0 ∷ v) same), nz)
      ]
]

Below-behind : (z : ℕ) (xs : Bytes) → Below 58 (zeros z ++ xs) → Below 58 xs
Below-behind zero xs h = h
Below-behind (suc z) xs (hz, h) = Below-behind z xs h

positive : (a : ℕ) (p : Bytes) → a ≢ 0 → value 58 a p ≢ 0
positive a [] nz = nz
positive a (d ∷ p) nz = positive (a * 58 + d) p (λ z. nz (omega arith))

-- Bytes without the zeros in front.
strip_bytes :
    (xs : Bytes)
    → Below 256 xs
    → value 256 0 xs ≢ 0
    → (b : ℕ) × (p : Bytes) × (strip 0 xs ≡ b ∷ p)
      × (b ≢ 0)
      × Below 256 (b ∷ p)
      × (value 256 0 (b ∷ p) ≡ value 256 0 xs)
unfolding strip
strip_bytes [] h nz = absurd (nz refl)
strip_bytes (x ∷ xs) (hx, h) nz = elim (Bool-cases (x == 0)) [
  | inr n ↦ (x, xs, rw n refl, (λ z. ground arith), (hx, h), refl)
  | inl y ↦
      let e : value 256 0 (x ∷ xs) ≡ value 256 0 xs =
        ap (λ a. value 256 (0 * 256 + a) xs) (==→eq x 0 y) in
      let (b, p, same, first, below, v) = strip_bytes xs h (λ w. nz (e ∙ w)) in
      (b, p, rw y same, first, below, v ∙ sym e)
]

decode_parts :
    (text ds q out bytes : Bytes) (z k : ℕ)
    → indexes text ≡ some ds
    → count_zeros ds ≡ some (z, q)
    → decode_loop (length text) q [] ≡ some out
    → strip 0 out ≡ bytes
    → length out - length bytes ≡ k
    → decode text ≡ take_zeros z k bytes
unfolding decode
decode_parts text ds q out bytes z k found counted run stripped skipped =
    rw (found, counted, run, stripped, skipped) refl

-- The digits behind the zeros are converted, and the zeros put in front if there is room.
converted :
    (text ds : Bytes) (z d : ℕ) (t : Bytes)
    → indexes text ≡ some ds
    → length ds ≡ length text
    → Below 58 ds
    → ds ≡ zeros z ++ d ∷ t
    → d ≢ 0
    → Reading ds (decode text)
unfolding take_zeros
converted text ds z d t found sized below same nz =
    let digits : Below 58 (d ∷ t) = Below-behind z (d ∷ t) (subst (Below 58) same below) in
    let fits : length (d ∷ t) ≤ length text =
      omega (arith, ap length same, length-append (zeros z) (d ∷ t), length-zeros z) in
    let (out, run, dec) = decode_loop-total (length text) (d ∷ t) [] digits tt fits in
    let long : length out ≡ 0 + length (d ∷ t) = dec.grown in
    let not_zero : value 256 0 out ≢ 0 =
      λ v. positive (0 * 58 + d) t (λ e. nz (omega arith)) (sym dec.same ∙ v) in
    let (b, p, stripped, first, bytes, v) = strip_bytes out dec.bytes not_zero in
    let number_of = v ∙ dec.same in
    let skipped : length out - length (b ∷ p) ≡ length (d ∷ t) - length (b ∷ p) = omega arith in
    let made : decode text ≡ take_zeros z (length (d ∷ t) - length (b ∷ p)) (b ∷ p) =
      decode_parts text ds (d ∷ t) out (b ∷ p) z _ found
        (ap count_zeros same ∙ count_zeros-zeros z d t nz) run stripped skipped in
    subst (Reading ds) (sym made) (elim (Bool-cases (ltb (length (d ∷ t) - length (b ∷ p)) z)) [
      | inl e ↦ rw e (no_room z d b t p same nz first bytes number_of (ground arith))
      | inr e ↦ rw e (number z d b t p same nz first bytes number_of (ground arith))
    ])

all_zeros :
    (text ds : Bytes) → indexes text ≡ some ds → ds ≡ zeros (length ds) → Reading ds (decode text)
unfolding decode
all_zeros text ds found same =
    let none_left : count_zeros ds ≡ none = ap count_zeros same ∙ count_zeros-none (length ds) in
    rw (found, none_left) (only_zeros same)

-- Behind its test for an empty text `base58_decode` makes of ASCII characters without a NUL the number that
-- their digits spell in base 58: the bytes of that number with no zero in front, and before them a zero
-- for each digit 0 in front. Two kinds of text are a fault: one whose digits are all 0, where a digit past
-- the end is read, and one with more digits 0 in front than the digits behind them outnumber the bytes,
-- where memory is read that was never written.
pub decode-Reading :
    (text : Bytes)
    → IsAscii text
    → (ds : Bytes) × (indexes text ≡ some ds) × Reading ds (decode text)
decode-Reading text ascii =
    let (ds, found, below, sized) = indexes-total text ascii in
    (
      ds,
      found,
      elim (front ds) [
        | inl same ↦ all_zeros text ds found same
        | inr (z, d, t, same, nz) ↦ converted text ds z d t found sized below same nz
      ],
    )

-- ===== src/Base58/Decode.antt =====
-- The letters of digits are looked up as these digits, and the decoding loop ends inside its buffer.
use mathlib.Core.List.{map}
use chain_wallet.Common.{
  ℕ, zero, suc, ◌+◌, ◌*◌, ◌/◌, ◌%◌, ◌≤◌, ◌<◌, ◌≡◌, refl, ap, ◌∙◌, some, [], ◌∷◌, true, Bytes,
  length, arith, ◌==◌, passes_under, passes_under-apply, not, ◌≢◌, finds, finds-eq,
}
use chain_wallet.Base58.{divmod256, advance, letter, decode_loop, index_of, indexes}
use chain_wallet.Base58.Value.{value, Below, divmod256-value}
use chain_wallet.Base58.Encode.{advance-value, advance-Below}

index_table : passes_under (λ d. finds (index_of (letter d)) d) 58 ≡ true
unfolding passes_under index_of letter
index_table = refl

letter_table : passes_under (λ d. not (letter d == 0)) 58 ≡ true
unfolding passes_under letter
letter_table = refl

-- No letter is a NUL.
pub letter-nonzero : (d : ℕ) → d < 58 → letter d ≢ 0
letter-nonzero d h =
    ground (arith, passes_under-apply (λ i. not (letter i == 0)) 58 d h letter_table)

-- A letter of the alphabet is looked up as its own digit.
pub index_of-letter : (d : ℕ) → d < 58 → index_of (letter d) ≡ some d
index_of-letter d h = finds-eq _ d (passes_under-apply _ 58 d h index_table)

pub indexes-letters : (ds : Bytes) → Below 58 ds → indexes (map letter ds) ≡ some ds
unfolding indexes
indexes-letters [] h = refl
indexes-letters (d ∷ ds) (hd, h) = rw (index_of-letter d hd, indexes-letters ds h)

-- What a loop leaves that has the digits `p` to decode and `bs` written.
pub record Decoded (p bs out : Bytes) : Type 0 where
  pub bytes : Below 256 out
  pub same : value 256 0 out ≡ value 256 (value 58 0 p) bs
  pub grown : length out ≡ length bs + length p

-- A first digit is below 256, so each round takes one digit off.
length-advance :
    (b : ℕ) (p : Bytes) → Below 58 (b ∷ p) → length (advance (divmod256 0 (b ∷ p)).0) ≡ length p
unfolding divmod256 advance
length-advance b p (hb, hp) =
    let (v, small, long, below) = divmod256-value 0 ((0 * 58 + b) % 256) p (omega arith) hp in
    let gone : ((((0 * 58 + b) / 256) % 256) == 0) ≡ true = ground arith in rw gone long

decode_loop-nil : (j : ℕ) (temp : Bytes) → decode_loop j [] temp ≡ some temp
unfolding decode_loop
decode_loop-nil zero temp = refl
decode_loop-nil (suc j) temp = refl

pub decode_loop-total :
    (j : ℕ) (p bs : Bytes)
    → Below 58 p
    → Below 256 bs
    → length p ≤ j
    → (out : Bytes) × (decode_loop j p bs ≡ some out) × Decoded p bs out
unfolding decode_loop
decode_loop-total j [] bs hp hb fits =
    (bs, decode_loop-nil j bs, record { bytes = hb; same = refl; grown = omega arith })
decode_loop-total zero (b ∷ p) bs hp hb fits = absurd (omega arith)
decode_loop-total (suc j) (b ∷ p) bs hp hb fits =
    let (q, m) = divmod256 0 (b ∷ p) in
    let (v, small, long, below) = divmod256-value 0 0 (b ∷ p) (omega arith) hp in
    let shorter : length (advance q) ≡ length p = length-advance b p hp in
    let (out, e, dec) =
      decode_loop-total j (advance q) (m ∷ bs) (advance-Below 58 q below) (small, hb)
        (omega arith) in
    let step : value 58 0 (advance q) * 256 + m ≡ value 58 0 (b ∷ p) =
      omega (arith, advance-value 58 q, v) in
    let grown : length out ≡ suc (length bs) + length (advance q) = dec.grown in
    (
      out,
      e,
      record {
        bytes = dec.bytes;
        same = dec.same ∙ ap (λ a. value 256 a bs) step;
        grown = omega arith;
      },
    )

-- ===== src/Base58/Encode.antt =====
-- The encoding loop ends inside its buffer, and its letters stand for the number of its bytes.
use mathlib.Core.List.{map}
use chain_wallet.Common.{
  ℕ, zero, suc, ◌+◌, ◌*◌, ◌/◌, ◌%◌, ◌≤◌, ◌<◌, ◌≡◌, refl, ap, ◌∙◌, some, [], ◌∷◌, Bytes, length,
  arith, ltb, ◌==◌, if◌then◌else◌, Bool-cases, inl, inr,
}
use chain_wallet.Base58.{divmod58, advance, letter, encode_loop}
use chain_wallet.Base58.Value.{value, Below, divmod58-value}

pub advance-value : (b : ℕ) (p : Bytes) → value b 0 (advance p) ≡ value b 0 p
unfolding advance
advance-value b [] = refl
advance-value b (d ∷ p) = elim (Bool-cases (d == 0)) [
  | inl z ↦ let e : 0 ≡ 0 * b + d = ground arith in rw z (ap (λ a. value b a p) e)
  | inr n ↦ rw n
]

pub advance-Below : (b : ℕ) (p : Bytes) → Below b p → Below b (advance p)
unfolding advance
advance-Below b [] h = tt
advance-Below b (d ∷ p) h = ground arith

-- the rounds that bytes need: two for each, one for a first byte below 58
abbrev pub rounds : Bytes → ℕ
rounds [] = 0
rounds (b ∷ p) = if ltb b 58 then 2 * length p + 1 else 2 * length p + 2

pub rounds-le : (p : Bytes) → rounds p ≤ 2 * length p
rounds-le [] = omega arith
rounds-le (b ∷ p) = ground arith

rounds-advance :
    (b h : ℕ) (p q : Bytes)
    → b < 256
    → h ≡ (b / 58) % 256
    → length q ≡ length p
    → suc (rounds (advance (h ∷ q))) ≤ rounds (b ∷ p)
unfolding advance
rounds-advance b h p q hb e l = ground (arith, rounds-le q)

rounds-divmod58 :
    (b : ℕ) (p : Bytes)
    → Below 256 (b ∷ p)
    → suc (rounds (advance (divmod58 0 (b ∷ p)).0)) ≤ rounds (b ∷ p)
unfolding divmod58
rounds-divmod58 b p (hb, hp) =
    let (v, small, long, bytes) = divmod58-value 0 ((0 * 256 + b) % 58) p (omega arith) hp in
    rounds-advance b (((0 * 256 + b) / 58) % 256) p _ hb (omega arith) long

encode_loop-nil : (j : ℕ) (temp : Bytes) → encode_loop j [] temp ≡ some temp
unfolding encode_loop
encode_loop-nil zero temp = refl
encode_loop-nil (suc j) temp = refl

-- What a loop leaves that has the bytes `p` to encode and the letters of `ds` written.
pub record Encoded (p ds out : Bytes) : Type 0 where
  pub digits : Below 58 out
  pub same : value 58 0 out ≡ value 58 (value 256 0 p) ds
  pub grown : length out ≤ length ds + rounds p

pub encode_loop-total :
    (j : ℕ) (p ds : Bytes)
    → Below 256 p
    → Below 58 ds
    → rounds p ≤ j
    → (out : Bytes) × (encode_loop j p (map letter ds) ≡ some (map letter out)) × Encoded p ds out
unfolding encode_loop
encode_loop-total j [] ds hp hd fits = (
  ds,
  encode_loop-nil j (map letter ds),
  record { digits = hd; same = refl; grown = omega arith },
)
encode_loop-total zero (b ∷ p) ds hp hd fits = absurd (ground arith)
encode_loop-total (suc j) (b ∷ p) ds hp hd fits =
    let (q, m) = divmod58 0 (b ∷ p) in
    let (v, small, long, bytes) = divmod58-value 0 0 (b ∷ p) (omega arith) hp in
    let (out, e, enc) =
      encode_loop-total j (advance q) (m ∷ ds) (advance-Below 256 q bytes) (small, hd)
        (omega (arith, rounds-divmod58 b p hp)) in
    let step : value 256 0 (advance q) * 58 + m ≡ value 256 0 (b ∷ p) =
      omega (arith, advance-value 256 q, v) in
    let fewer : suc (rounds (advance q)) ≤ rounds (b ∷ p) = rounds-divmod58 b p hp in
    let grown : length out ≤ suc (length ds) + rounds (advance q) = enc.grown in
    (
      out,
      e,
      record {
        digits = enc.digits;
        same = enc.same ∙ ap (λ a. value 58 a ds) step;
        grown = omega arith;
      },
    )

-- ===== src/Der/Strict.antt =====
-- `sig_to_der` of native-crypto/der.c writes strict DER: each integer is the number of its half of the
-- signature, in as few bytes as a number that is not negative takes.
use chain_wallet.Common.{
  ℕ, zero, suc, ◌+◌, ◌-◌, ◌%◌, ◌≡◌, ◌≢◌, ◌<◌, ◌≤◌, refl, sym, ◌∙◌, ap, some, [], ◌∷◌, ◌++◌, Bytes,
  length, take, drop, zeros, leb, false, arith, Bool-cases, inl, inr, length-take, length-drop,
  take_all,
}
use mathlib.Core.Path.{subst}
use chain_wallet.Base58.Value.{value, value-zeros}
use chain_wallet.Der.{skip_zeros, content, integer_content, sig_to_der}
use chain_wallet.Der.Encode.{Skipped, Stops, nonzero-Stops, Stops-lt, skip_zeros-total, content_lem}

-- The shortest content of a number that is not negative: the top bit is clear, and a zero is in front only
-- of a byte whose top bit is set.
abbrev pub Shortest : Bytes → Type 0
Shortest [] = ⊥
Shortest (b ∷ []) = b < 0x80
Shortest (zero ∷ b ∷ v) = 0x80 ≤ b
Shortest (suc a ∷ b ∷ v) = suc a < 0x80

-- The content of an integer of 32 bytes.
pub record IsInteger (half c : Bytes) : Type 0 where
  pub shortest : Shortest c
  pub same : value 256 0 c ≡ value 256 0 half
  pub short : length c ≤ 33

nonzero-Shortest : (b : ℕ) (v : Bytes) → b ≢ 0 → leb 0x80 b ≡ false → Shortest (b ∷ v)
nonzero-Shortest b [] nz e = ground arith
nonzero-Shortest zero (c ∷ v) nz e = absurd (nz refl)
nonzero-Shortest (suc b) (c ∷ v) nz e = ground arith

-- The content of what is left behind the zeros, if that is not nothing.
left_content :
    (l b : ℕ) (p q : Bytes)
    → Skipped 32 p (suc l) (b ∷ q)
    → 32 ≤ length p
    → (c : Bytes) × (content (suc l, b ∷ q) ≡ some c) × IsInteger (take 32 p) c
left_content l b p q s long =
    let le : suc l ≤ 32 = s.fewer in
    let moved : 32 + length (b ∷ q) ≡ suc l + length p = s.moved in
    let room : suc l ≤ length (b ∷ q) = omega arith in
    let same : value 256 0 (take 32 p) ≡ value 256 0 (b ∷ take l q) =
      ap (value 256 0) s.same ∙ value-zeros 256 (32 - suc l) (b ∷ take l q) in
    let sized : length (b ∷ take l q) ≤ 32 = omega (arith, length-take l q) in
    elim (Bool-cases (leb 0x80 b)) [
      | inl high ↦ (
        0 ∷ b ∷ take l q,
        rw (content_lem (suc l) b q room, high) refl,
        record {
          shortest = ground arith;
          same = value-zeros 256 1 (b ∷ take l q) ∙ sym same;
          short = omega arith;
        },
      )
      | inr low ↦ (
        b ∷ take l q,
        rw (content_lem (suc l) b q room, low) refl,
        record {
          shortest = nonzero-Shortest b (take l q) (s.head (λ z. omega arith)) low;
          same = sym same;
          short = omega arith;
        },
      )
    ]

integer_content-IsInteger :
    (p : Bytes)
    → Stops 32 p
    → 32 ≤ length p
    → take 32 p ≢ zeros 32
    → (c : Bytes) × (integer_content p ≡ some c) × IsInteger (take 32 p) c
unfolding integer_content
integer_content-IsInteger p stops long nz = go (skip_zeros-total 32 p stops)
  where
    go :
        (left : ℕ) × (b : ℕ) × (q : Bytes) × (skip_zeros 32 p ≡ some (left, b ∷ q))
          × Skipped 32 p left (b ∷ q)
        → (c : Bytes) × (integer_content p ≡ some c) × IsInteger (take 32 p) c
    go (zero, b, q, e, s) = absurd (nz s.same)
    go (suc l, b, q, e, s) =
        let (c, made, is) = left_content l b p q s long in (c, rw (e, made) refl, is)

-- For a signature of 64 bytes neither half of which is zero `sig_to_der` writes strict DER: a sequence of
-- two integers with their lengths, where the integers are the numbers of the two halves, each in the
-- fewest bytes that a number which is not negative takes; it returns the length of all that.
pub sig_to_der-strict :
    (sig : Bytes)
    → length sig ≡ 64
    → take 32 sig ≢ zeros 32
    → drop 32 sig ≢ zeros 32
    → (r s : Bytes) × (sig_to_der sig
        ≡ some (
          0x30 ∷ (length r + length s + 4) ∷ 0x02 ∷ length r ∷ (r ++ 0x02 ∷ length s ∷ s),
          length r + length s + 6,
        ))
      × IsInteger (take 32 sig) r
      × IsInteger (drop 32 sig) s
unfolding sig_to_der
sig_to_der-strict sig long nr ns =
    let half : length (drop 32 sig) ≡ 32 = omega (arith, length-drop 32 sig) in
    let all : take 32 (drop 32 sig) ≡ drop 32 sig = take_all 32 (drop 32 sig) (omega arith) in
    let ns' : take 32 (drop 32 sig) ≢ zeros 32 = λ e. ns (sym all ∙ e) in
    let (r, er, first) =
      integer_content-IsInteger sig (Stops-lt 32 sig (omega arith)) (omega arith) nr in
    let (s, es, last) =
      integer_content-IsInteger (drop 32 sig) (nonzero-Stops 32 (drop 32 sig) ns' half)
        (omega arith) ns' in
    let lr : length r ≤ 33 = first.short in
    let ls : length s ≤ 33 = last.short in
    let mr : length r % 256 ≡ length r = omega arith in
    let ms : length s % 256 ≡ length s = omega arith in
    let m : (length r + length s + 4) % 256 ≡ length r + length s + 4 = omega arith in
    let n : length r + length s + 4 + 2 ≡ length r + length s + 6 = omega arith in
    (r, s, rw (er, es, mr, ms, m, n) refl, first, subst (λ h. IsInteger h s) all last)

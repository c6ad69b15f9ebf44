-- ===== src/Base58/Strip.antt =====
-- What the code of base58.c that skips zeros leaves: digits of which the first is not 0.
use mathlib.Core.List.{map}
use native.Mathlib.Decide.{dec_le}
use chain_wallet.Common.{
  ℕ, zero, suc, ◌+◌, ◌-◌, ◌*◌, ◌≤◌, ◌<◌, ◌≡◌, ◌≢◌, refl, sym, ap, ◌∙◌, some, [], ◌∷◌, ◌++◌, true,
  false, Bytes, All-append, length, length-append, length-zeros, zeros, arith, ◌==◌, ==→eq,
  passes_under, passes_under-apply, if◌then◌else◌, Bool-cases, inl, inr,
}
use chain_wallet.Base58.{letter, count_zeros, strip}
use chain_wallet.Base58.Value.{value, Below, value-zeros, value-injective}

-- the code distinguishes the first letter from the others
pub one_table :
    passes_under
      (λ d. if d == 0 then letter d == b'1' else if letter d == b'1' then false else true)
      58
    ≡ true
unfolding passes_under letter
one_table = refl

pub letter-eq-one : (d : ℕ) → d < 58 → (letter d == b'1') ≡ (d == 0)
letter-eq-one d h = ground (
  arith,
  passes_under-apply
      (λ d. if d == 0 then letter d == b'1' else if letter d == b'1' then false else true) 58 d h
      one_table,
)

pub strip-letters :
    (ds : Bytes) → Below 58 ds → strip b'1' (map letter ds) ≡ map letter (strip 0 ds)
unfolding strip
strip-letters [] h = refl
strip-letters (d ∷ ds) (hd, h) =
    rw (letter-eq-one d hd, strip-letters ds h)
      (elim (Bool-cases (d == 0)) [ inl z ↦ rw z | inr n ↦ rw n ])

pub count_zeros-zeros :
    (z b : ℕ) (p : Bytes) → b ≢ 0 → count_zeros (zeros z ++ b ∷ p) ≡ some (z, b ∷ p)
unfolding count_zeros
count_zeros-zeros zero b p h = ground arith
count_zeros-zeros (suc z) b p h =
    rw (count_zeros-zeros z b p h) (ap (λ n. some (n, b ∷ p)) (omega arith))

pub zeros-Below : (b n : ℕ) → 0 < b → Below b (zeros n)
zeros-Below b zero h = tt
zeros-Below b (suc n) h = (h, zeros-Below b n h)

pub le-value : (a : ℕ) (p : Bytes) → a ≤ value 256 a p
le-value a [] = omega arith
le-value a (b ∷ p) = omega (arith, le-value (a * 256 + b) p)

-- digits without zeros in front
pub record Stripped (ds : Bytes) (d : ℕ) (t : Bytes) : Type 0 where
  pub same : strip 0 ds ≡ d ∷ t
  pub nonzero : d ≢ 0
  pub number : value 58 0 (d ∷ t) ≡ value 58 0 ds
  pub digits : Below 58 (d ∷ t)
  pub shorter : length (d ∷ t) ≤ length ds

pub strip-Stripped :
    (ds : Bytes) → Below 58 ds → value 58 0 ds ≢ 0 → (d : ℕ) × (t : Bytes) × Stripped ds d t
unfolding strip
strip-Stripped [] h nz = absurd (nz refl)
strip-Stripped (d ∷ ds) (hd, h) nz = elim (Bool-cases (d == 0)) [
  | inl z ↦
      let e : value 58 0 (d ∷ ds) ≡ value 58 0 ds =
        ap (λ x. value 58 (0 * 58 + x) ds) (==→eq d 0 z) in
      let (d', t, s) = strip-Stripped ds h (λ v. nz (e ∙ v)) in
      let shorter : length (d' ∷ t) ≤ length ds = s.shorter in
      (
        d',
        t,
        record {
          same = rw z s.same;
          nonzero = s.nonzero;
          number = s.number ∙ sym e;
          digits = s.digits;
          shorter = omega arith;
        },
      )
  | inr n ↦ (
    d,
    ds,
    record {
      same = rw n;
      nonzero = λ z. ground arith;
      number = refl;
      digits = (hd, h);
      shorter = omega arith;
    },
  )
]

pub strip-zeros : (n b : ℕ) (p : Bytes) → b ≢ 0 → strip 0 (zeros n ++ b ∷ p) ≡ b ∷ p
unfolding strip
strip-zeros zero b p h = ground arith
strip-zeros (suc n) b p h = strip-zeros n b p h

-- Bytes that stand for the number of `b ∷ p` are these bytes behind zeros.
pub strip-canonical :
    (xs : Bytes) (b : ℕ) (p : Bytes)
    → b ≢ 0
    → Below 256 xs
    → Below 256 (b ∷ p)
    → value 256 0 xs ≡ value 256 0 (b ∷ p)
    → strip 0 xs ≡ b ∷ p
strip-canonical xs b p nz hx hb e = elim (dec_le (length (b ∷ p)) (length xs)) [
  | yes le ↦
      let n = length xs - length (b ∷ p) in
      let l : length xs ≡ length (zeros n ++ b ∷ p) =
        omega (arith, length-append (zeros n) (b ∷ p), length-zeros n) in
      let same : xs ≡ zeros n ++ b ∷ p =
        (value-injective 0 0 xs (zeros n ++ b ∷ p) l hx
          (All-append _ (zeros n) (b ∷ p) (zeros-Below 256 n (omega arith)) hb)
          (e ∙ sym (value-zeros 256 n (b ∷ p)))).1 in
      rw same (strip-zeros n b p nz)
  | no gt ↦
      let n = length (b ∷ p) - length xs - 1 in
      let l : length (zeros (suc n) ++ xs) ≡ length (b ∷ p) =
        omega (arith, length-append (zeros (suc n)) xs, length-zeros n) in
      let same : zeros (suc n) ++ xs ≡ b ∷ p =
        (value-injective 0 0 (zeros (suc n) ++ xs) (b ∷ p) l
          (All-append _ (zeros (suc n)) xs (zeros-Below 256 (suc n) (omega arith)) hx) hb
          (value-zeros 256 (suc n) xs ∙ e)).1 in
      let first : 0 ≡ b = cc in absurd (nz (sym first))
]

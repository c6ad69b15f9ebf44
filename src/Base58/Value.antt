-- ===== src/Base58/Value.antt =====
-- The number that digits of a base stand for, high digit first, and what the division loops do to it.
use chain_wallet.Common.{
  ℕ, zero, suc, ◌+◌, ◌*◌, ◌/◌, ◌%◌, ◌<◌, ◌≡◌, refl, ap, ◌∙◌, [], ◌∷◌, ◌++◌, Bytes, All, length,
  zeros, arith,
}
use chain_wallet.Base58.{divmod58, divmod256}

-- `acc` followed by digits.
abbrev pub value : ℕ → ℕ → Bytes → ℕ
value b acc [] = acc
value b acc (d ∷ ds) = value b (acc * b + d) ds

abbrev pub Below : ℕ → Bytes → Type 0
Below b = All (λ d. d < b)

pub value-append :
    (b acc : ℕ) (xs ys : Bytes) → value b acc (xs ++ ys) ≡ value b (value b acc xs) ys
value-append b acc [] ys = refl
value-append b acc (x ∷ xs) ys = value-append b (acc * b + x) xs ys

pub value-zeros : (b n : ℕ) (xs : Bytes) → value b 0 (zeros n ++ xs) ≡ value b 0 xs
value-zeros b zero xs = refl
value-zeros b (suc n) xs =
    let e : 0 * b + 0 ≡ 0 = omega arith in
    ap (λ a. value b a (zeros n ++ xs)) e ∙ value-zeros b n xs

-- One round of `divmod58`: the bytes are 58 times the quotient and the remainder.
pub divmod58-value :
    (a rem : ℕ) (p : Bytes)
    → rem < 58
    → Below 256 p
    → let (q, r) = divmod58 rem p in
      (value 256 (58 * a + rem) p ≡ 58 * value 256 a q + r)
      × (r < 58)
      × (length q ≡ length p)
      × Below 256 q
unfolding divmod58
divmod58-value a rem [] h _ = (omega arith, omega arith, refl, tt)
divmod58-value a rem (b ∷ p) h (hb, hp) =
    let t = rem * 256 + b in
    let e : (58 * a + rem) * 256 + b ≡ 58 * (a * 256 + (t / 58) % 256) + t % 58 = omega arith in
    let (v, small, same, bytes) =
      divmod58-value (a * 256 + (t / 58) % 256) (t % 58) p (omega arith) hp in
    (ap (λ x. value 256 x p) e ∙ v, small, ap suc same, (omega arith, bytes))

-- One round of `divmod256`, on digits below 58. The quotient is again below 59, which a `char`
-- holds; a first digit leaves 0.
pub divmod256-value :
    (a rem : ℕ) (p : Bytes)
    → rem < 256
    → Below 58 p
    → let (q, r) = divmod256 rem p in
      (value 58 (256 * a + rem) p ≡ 256 * value 58 a q + r)
      × (r < 256)
      × (length q ≡ length p)
      × Below 58 q
unfolding divmod256
divmod256-value a rem [] h _ = (omega arith, omega arith, refl, tt)
divmod256-value a rem (b ∷ p) h (hb, hp) =
    let t = rem * 58 + b in
    let e : (256 * a + rem) * 58 + b ≡ 256 * (a * 58 + (t / 256) % 256) + t % 256 = omega arith in
    let (v, small, same, bytes) =
      divmod256-value (a * 58 + (t / 256) % 256) (t % 256) p (omega arith) hp in
    (ap (λ x. value 58 x p) e ∙ v, small, ap suc same, (omega arith, bytes))

-- Digits of the same number and as many are the same.
pub value-injective :
    (a a' : ℕ) (xs ys : Bytes)
    → length xs ≡ length ys
    → Below 256 xs
    → Below 256 ys
    → value 256 a xs ≡ value 256 a' ys
    → (a ≡ a') × (xs ≡ ys)
value-injective a a' [] [] l hx hy e = (e, refl)
value-injective a a' [] (y ∷ ys) l hx hy e = absurd (omega arith)
value-injective a a' (x ∷ xs) [] l hx hy e = absurd (omega arith)
value-injective a a' (x ∷ xs) (y ∷ ys) l (hx, hxs) (hy, hys) e =
    let (same, rest) = value-injective (a * 256 + x) (a' * 256 + y) xs ys (omega arith) hxs hys e in
    let front : x ≡ y = omega arith in (omega arith, cc)

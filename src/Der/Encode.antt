-- ===== src/Der/Encode.antt =====
-- What `sig_to_der` writes for one integer.
use chain_wallet.Common.{
  ℕ, zero, suc, ◌+◌, ◌-◌, ◌≤◌, ◌<◌, ◌≡◌, ◌≢◌, refl, ap, some, true, [], ◌∷◌, ◌++◌, Bytes, length,
  take, zeros, ◌⊎◌, arith, leb, if◌then◌else◌, ◌==◌, Bool-cases, ==→eq, inl, inr,
}
use chain_wallet.Common.Chain.{copy-take}
use chain_wallet.Der.{skip_zeros, content}

-- the byte at a pointer can be read and is not 0
abbrev pub NonzeroHead : Bytes → Type 0
NonzeroHead [] = ⊥
NonzeroHead (b ∷ p) = b ≢ 0

-- what the loop over the leading zeros leaves
pub record Skipped (k : ℕ) (p : Bytes) (left : ℕ) (q : Bytes) : Type 0 where
  pub fewer : left ≤ k
  pub moved : k + length q ≡ left + length p
  pub same : take k p ≡ zeros (k - left) ++ take left q
  pub head : left ≢ 0 → NonzeroHead q

-- the loop stops before the input ends
abbrev pub Stops : ℕ → Bytes → Type 0
Stops k [] = ⊥
Stops zero (b ∷ p) = Unit
Stops (suc k) (b ∷ p) = (b ≢ 0) ⊎ Stops k p

-- bytes that are not all 0 hold one that is not
pub nonzero-Stops : (k : ℕ) (p : Bytes) → take k p ≢ zeros k → length p ≡ k → Stops k p
nonzero-Stops zero p h e = absurd (h refl)
nonzero-Stops (suc k) [] h e = omega arith
nonzero-Stops (suc k) (b ∷ p) h e = elim (Bool-cases (b == 0)) [
  | inl z ↦ inr (nonzero-Stops k p (λ same. h (rw (==→eq b 0 z, same))) (omega arith))
  | inr n ↦ inl (λ z. ground arith)
]

pub Stops-lt : (k : ℕ) (p : Bytes) → k < length p → Stops k p
Stops-lt zero [] h = elim h [ ]
Stops-lt (suc k) [] h = elim h [ ]
Stops-lt zero (b ∷ p) h = tt
Stops-lt (suc k) (b ∷ p) h = inr (Stops-lt k p (omega arith))

Skipped-zero :
    (k b left : ℕ) (p q : Bytes) → b ≡ 0 → Skipped k p left q → Skipped (suc k) (b ∷ p) left q
Skipped-zero k b left p q z s =
    let le : left ≤ k = s.fewer in
    let e : suc k - left ≡ suc (k - left) = omega arith in
    let more : zeros (suc k - left) ≡ 0 ∷ zeros (k - left) = ap zeros e in
    record { fewer = omega arith; moved = omega arith; same = rw (z, s.same, more); head = s.head }

Skipped-here : (k b : ℕ) (p : Bytes) → (k ≢ 0 → b ≢ 0) → Skipped k (b ∷ p) k (b ∷ p)
Skipped-here k b p h =
    let e : k - k ≡ 0 = omega arith in
    let none_left : zeros (k - k) ≡ [] = ap zeros e in
    record { fewer = omega arith; moved = refl; same = rw none_left; head = h }

pub skip_zeros-total :
    (k : ℕ) (p : Bytes)
    → Stops k p
    → (left : ℕ) × (b : ℕ) × (q : Bytes) × (skip_zeros k p ≡ some (left, b ∷ q))
      × Skipped k p left (b ∷ q)
unfolding skip_zeros
skip_zeros-total k [] h = elim h [ ]
skip_zeros-total zero (b ∷ p) h = (0, b, p, refl, Skipped-here 0 b p (λ n. absurd (n refl)))
skip_zeros-total (suc k) (b ∷ p) h = elim (Bool-cases (b == 0)) [
  | inl z ↦
      let (left, c, q, e, s) = skip_zeros-total k p (stops_on k p z h) in
      (left, c, q, rw z e, Skipped-zero k b left p (c ∷ q) (==→eq b 0 z) s)
  | inr n ↦ (suc k, b, p, rw n, Skipped-here (suc k) b p (λ _ e. ground arith))
]
  where
    stops_on : {b : ℕ} (k : ℕ) (p : Bytes) → (b == 0) ≡ true → (b ≢ 0) ⊎ Stops k p → Stops k p
    stops_on k p z (inl n) = absurd (n (==→eq _ 0 z))
    stops_on k p z (inr s) = s

-- What the content of an integer is: the bytes that are left, behind a zero byte if their top bit
-- is set.
pub content_lem :
    (left b : ℕ) (p : Bytes)
    → left ≤ length (b ∷ p)
    → content (left, b ∷ p) ≡ some (if leb 0x80 b then 0 ∷ take left (b ∷ p) else take left (b ∷ p))
unfolding content
content_lem left b p h = rw (copy-take left (b ∷ p) h)

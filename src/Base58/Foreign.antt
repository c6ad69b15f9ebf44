-- ===== src/Base58/Foreign.antt =====
-- Characters that are not in the alphabet of native-crypto/base58.c.
use mathlib.Core.List.{map}
use chain_wallet.Common.{
  ℕ, ◌≡◌, refl, false, Bool-cases, Option, none, some, inl, inr, [], ◌∷◌, Bytes, length-map, leb,
  ◌==◌, if◌then◌else◌, ◌∙◌, sym,
}
use chain_wallet.Base58.{alphabet, position, index_of, indexes, decode}

-- By the character's place in the alphabet: '1' stands for one that has none and is no NUL.
unfoldable pub placed : Option ℕ → ℕ → ℕ
placed (some i) c = c
placed none c = if c == 0 then c else b'1'

-- What the decoder takes a character for; one of 128 or more is beyond its table.
unfoldable pub taken_for : ℕ → ℕ
taken_for c = if leb 128 c then c else placed (position c 0 alphabet) c

index_of_one : index_of b'1' ≡ some 0
unfolding index_of
index_of_one = refl

index_of_foreign :
    (c : ℕ)
    → leb 128 c ≡ false
    → position c 0 alphabet ≡ none
    → (c == 0) ≡ false
    → index_of c ≡ some 0
unfolding index_of
index_of_foreign c small foreign e = rw (small, foreign, e) refl

index_of-placed :
    (c : ℕ) (o : Option ℕ)
    → leb 128 c ≡ false
    → position c 0 alphabet ≡ o
    → index_of (placed o c) ≡ index_of c
unfolding placed
index_of-placed c (some i) small h = refl
index_of-placed c none small h = elim (Bool-cases (c == 0)) [
  | inl e ↦ rw e refl
  | inr e ↦ rw e (index_of_one ∙ sym (index_of_foreign c small h e))
]

index_of-taken_for : (c : ℕ) → index_of (taken_for c) ≡ index_of c
unfolding taken_for
index_of-taken_for c = elim (Bool-cases (leb 128 c)) [
  | inl big ↦ rw big refl
  | inr small ↦ rw small (index_of-placed c (position c 0 alphabet) small refl)
]

indexes-taken_for : (s : Bytes) → indexes (map taken_for s) ≡ indexes s
unfolding indexes
indexes-taken_for [] = refl
indexes-taken_for (c ∷ s) = rw (index_of-taken_for c, indexes-taken_for s) refl

-- `base58_decode` rejects no character below 128 other than NUL: a text with characters that are not in the alphabet is
-- decoded as the text that has '1' in their places.
pub decode-taken_for : (text : Bytes) → decode (map taken_for text) ≡ decode text
unfolding decode
decode-taken_for text = rw (indexes-taken_for text, length-map taken_for text) refl

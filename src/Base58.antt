-- ===== src/Base58.antt =====
-- native-crypto/base58.c, on the bytes that a pointer and a length delimit. A buffer that is filled
-- from its end is the list of what is written so far, with the number of places that are left. A
-- read past a block, a read of memory that was never written and a write before a block are
-- faults (`none`).
pub mod Kept
pub mod Moves
pub mod Follows
pub mod Value
pub mod Encode
pub mod Decode
pub mod Strip
pub mod RoundTrip
pub mod Heap
pub mod Foreign
pub mod Reading
use mathlib.Core.List.{map}
use chain_wallet.Common.{
  ℕ, zero, suc, ◌+◌, ◌-◌, ◌*◌, ◌/◌, ◌%◌, Option, none, some, List, [], ◌∷◌, ◌++◌, Bytes, length,
  take, replicate, codes, ltb, leb, ◌==◌, if◌then◌else◌,
}
use chain_wallet.Common.Chain.{◌>>=◌}

abbrev pub alphabet : Bytes
alphabet = codes "123456789ABCDEFGHJKLMNPQRSTUVWXYZabcdefghijkmnopqrstuvwxyz"

abbrev byte_at : Bytes → ℕ → ℕ
byte_at [] i = 0
byte_at (b ∷ bs) zero = b
byte_at (b ∷ bs) (suc i) = byte_at bs i

-- `ALPHABET[i]`; a NUL stands behind the 58 characters.
pub letter : ℕ → ℕ
letter i = byte_at alphabet i

abbrev pub position : ℕ → ℕ → Bytes → Option ℕ
position c i [] = none
position c i (b ∷ bs) = if c == b then some i else position c (i + 1) bs

-- `INDEXES[c]` after `getIndexes`. The initialiser `{-1}` sets the entry 0 alone, and leaves 0 in
-- the entry of every other character that is not in the alphabet. The table has 128 entries.
pub index_of : ℕ → Option ℕ
index_of c =
    if leb 128 c
    then none
    else elim (position c 0 alphabet) [ some i ↦ some i | none ↦ some (if c == 0 then 255 else 0) ]

-- The loops of `divmod58` and `divmod256` from the index `i` on: the quotient is left in place of
-- the dividend.
pub divmod58 : ℕ → Bytes → Bytes × ℕ
divmod58 rem [] = ([], rem % 256)
divmod58 rem (b ∷ p) =
    let t = rem * 256 + b in let (q, r) = divmod58 (t % 58) p in (((t / 58) % 256) ∷ q, r)

pub divmod256 : ℕ → Bytes → Bytes × ℕ
divmod256 rem [] = ([], rem % 256)
divmod256 rem (b ∷ p) =
    let t = rem * 58 + b in let (q, r) = divmod256 (t % 256) p in (((t / 256) % 256) ∷ q, r)

-- `while (z < inLen && in[++z] == 0)`: the number of zeros in front, and what follows them. Where
-- there are only zeros it reads one byte past the end.
pub count_zeros : Bytes → Option (ℕ × Bytes)
count_zeros [] = none
count_zeros (b ∷ p) =
    let rest = (do (z, q) ← count_zeros p; some (z + 1, q)) in
    if b == 0 then rest else some (0, b ∷ p)

-- `if (in[startAt] == 0) ++startAt`
pub advance : Bytes → Bytes
advance [] = []
advance (b ∷ p) = if b == 0 then p else b ∷ p

-- The loop that writes the letters, with `j` places left before them.
pub encode_loop : ℕ → Bytes → Bytes → Option Bytes
unfolding divmod58 advance letter
encode_loop j [] temp = some temp
encode_loop zero (b ∷ p) temp = none
encode_loop (suc j) (b ∷ p) temp =
    let (q, mod58) = divmod58 0 (b ∷ p) in encode_loop j (advance q) (letter mod58 ∷ temp)

-- `while (j < end && temp[j] == c) j++`
pub strip : ℕ → Bytes → Bytes
strip c [] = []
strip c (b ∷ p) = if b == c then strip c p else b ∷ p

-- `while (--z >= 0) temp[--j] = '1'`, in the `room` bytes of `temp`.
pub put_ones : ℕ → ℕ → Bytes → Option Bytes
put_ones room z t = if ltb room (z + length t) then none else some (replicate z b'1' ++ t)

-- What `base58_encode` makes of an input that is not empty, without the NUL behind it.
unfoldable pub encode : Bytes → Option Bytes
unfolding count_zeros encode_loop strip put_ones
encode input = do
  (z, p) ← count_zeros input
  temp ← encode_loop (length input * 2) p []
  put_ones (length input * 2) z (strip b'1' temp)

pub indexes : Bytes → Option Bytes
unfolding index_of
indexes [] = some []
indexes (c ∷ s) = do i ← index_of c; rest ← indexes s; some (i ∷ rest)

-- The loop that writes the bytes, with `j` places left before them.
pub decode_loop : ℕ → Bytes → Bytes → Option Bytes
unfolding divmod256 advance
decode_loop j [] temp = some temp
decode_loop zero (b ∷ p) temp = none
decode_loop (suc j) (b ∷ p) temp =
    let (q, mod256) = divmod256 0 (b ∷ p) in decode_loop j (advance q) (mod256 ∷ temp)

-- `memcpy(out, temp + j - z, len)`: the zeros in front are those that were skipped in `temp`, so
-- there must be as many. What stands before them in `temp` was never written.
pub take_zeros : ℕ → ℕ → Bytes → Option Bytes
take_zeros z skipped t = if ltb skipped z then none else some (replicate z 0 ++ t)

-- What `base58_decode` makes of an input that is not empty.
unfoldable pub decode : Bytes → Option Bytes
unfolding indexes count_zeros decode_loop strip take_zeros
decode input = do
  input58 ← indexes input
  (z, p) ← count_zeros input58
  temp ← decode_loop (length input) p []
  let bytes = strip 0 temp
  take_zeros z (length temp - length bytes) bytes

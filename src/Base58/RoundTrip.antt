-- ===== src/Base58/RoundTrip.antt =====
-- `base58_encode` succeeds, and `base58_decode` reads back what it writes.
use mathlib.Core.List.{map, map-append}
use chain_wallet.Common.{
  ℕ, zero, suc, ◌+◌, ◌-◌, ◌*◌, ◌≤◌, ◌≡◌, ◌≢◌, refl, sym, ap, ◌∙◌, some, [], ◌∷◌, ◌++◌, Bytes,
  IsBytes, length-replicate, All-append, length, length-append, length-zeros, length-map, replicate,
  zeros, arith,
}
use chain_wallet.Base58.{letter, strip, put_ones, encode, take_zeros, decode}
use chain_wallet.Base58.Value.{value, Below}
use chain_wallet.Base58.Encode.{rounds-le, rounds, encode_loop-total}
use chain_wallet.Base58.Decode.{indexes-letters, decode_loop-total}
use chain_wallet.Base58.Strip.{
  strip-letters, count_zeros-zeros, zeros-Below, le-value, strip-Stripped, strip-canonical,
}

letters-ones : (z : ℕ) → map letter (zeros z) ≡ replicate z b'1'
unfolding letter
letters-ones zero = refl
letters-ones (suc z) = ap (λ t. b'1' ∷ t) (letters-ones z)

-- What `base58_encode` writes for bytes with `z` zeros in front: `z` ones and the letters of digits
-- that stand for the same number, the first of them not 0.
pub record Text (z b : ℕ) (p : Bytes) : Type 0 where
  pub first : ℕ
  pub others : Bytes
  pub nonzero : first ≢ 0
  pub digits : Below 58 (first ∷ others)
  pub number : value 58 0 (first ∷ others) ≡ value 256 0 (b ∷ p)
  pub written : encode (zeros z ++ b ∷ p) ≡ some (replicate z b'1' ++ map letter (first ∷ others))

put_ones_fits :
    (room z : ℕ) (t : Bytes)
    → z + length t ≤ room
    → put_ones room z t ≡ some (replicate z b'1' ++ t)
unfolding put_ones
put_ones_fits room z t h = ground arith

pub encode-Text : (z b : ℕ) (p : Bytes) → b ≢ 0 → Below 256 (b ∷ p) → Text z b p
unfolding encode
encode-Text z b p nz hb =
    let n = length (zeros z ++ b ∷ p) * 2 in
    let long : length (zeros z ++ b ∷ p) ≡ z + suc (length p) =
      omega (arith, length-append (zeros z) (b ∷ p), length-zeros z) in
    let (ds, e, enc) = encode_loop-total n (b ∷ p) [] hb tt (omega (arith, rounds-le (b ∷ p))) in
    let positive : value 58 0 ds ≢ 0 = λ v. omega (arith, enc.same, le-value (0 * 256 + b) p) in
    let (d, t, s) = strip-Stripped ds enc.digits positive in
    let stripped : strip b'1' (map letter ds) ≡ map letter (d ∷ t) =
      strip-letters ds enc.digits ∙ ap (map letter) s.same in
    let shorter : length (d ∷ t) ≤ length ds = s.shorter in
    let grown : length ds ≤ 0 + rounds (b ∷ p) = enc.grown in
    let half : rounds (b ∷ p) ≤ 2 * length (b ∷ p) = rounds-le (b ∷ p) in
    let letters : length (map letter (d ∷ t)) ≡ length (d ∷ t) = length-map letter (d ∷ t) in
    record {
      first = d;
      others = t;
      nonzero = s.nonzero;
      digits = s.digits;
      number = s.number ∙ enc.same;
      written =
          rw (count_zeros-zeros z b p nz, e, stripped)
            (put_ones_fits n z (map letter (d ∷ t)) (omega arith));
    }

take_zeros_fits : (z k : ℕ) (t : Bytes) → z ≤ k → take_zeros z k t ≡ some (zeros z ++ t)
unfolding take_zeros
take_zeros_fits z k t h = ground arith

-- Reading the text of digits whose first is not 0, behind `z` ones.
decode-letters :
    (z b d : ℕ) (p t : Bytes)
    → b ≢ 0
    → d ≢ 0
    → Below 256 (b ∷ p)
    → Below 58 (d ∷ t)
    → value 58 0 (d ∷ t) ≡ value 256 0 (b ∷ p)
    → z ≤ length (d ∷ t) - length (b ∷ p)
    → decode (replicate z b'1' ++ map letter (d ∷ t)) ≡ some (zeros z ++ b ∷ p)
unfolding decode
decode-letters z b d p t nz nd hb hd e room =
    let text : replicate z b'1' ++ map letter (d ∷ t) ≡ map letter (zeros z ++ d ∷ t) =
      ap (λ o. o ++ map letter (d ∷ t)) (sym (letters-ones z))
      ∙ sym (map-append letter (zeros z) (d ∷ t)) in
    let found =
      indexes-letters (zeros z ++ d ∷ t)
        (All-append _ (zeros z) (d ∷ t) (zeros-Below 58 z (omega arith)) hd) in
    let n = length (map letter (zeros z ++ d ∷ t)) in
    let fits : length (d ∷ t) ≤ n = omega (
      arith,
      length-map letter (zeros z ++ d ∷ t),
      length-append (zeros z) (d ∷ t),
      length-zeros z,
    ) in
    let (out, run, dec) = decode_loop-total n (d ∷ t) [] hd tt fits in
    let bytes : strip 0 out ≡ b ∷ p = strip-canonical out b p nz dec.bytes hb (dec.same ∙ e) in
    let grown : length out ≡ 0 + length (d ∷ t) = dec.grown in
    rw (text, found, count_zeros-zeros z d t nd, run, bytes)
      (take_zeros_fits z (length out - length (b ∷ p)) (b ∷ p) (omega arith))

-- `base58_encode` succeeds for all bytes with one that is not 0: no access leaves its buffers. Its
-- text is one '1' for each zero in front, and then letters of which the first is no '1' and that
-- spell the number of the bytes in base 58.
pub encode-total :
    (z b : ℕ) (p : Bytes)
    → b ≢ 0
    → IsBytes (b ∷ p)
    → (d : ℕ) × (t : Bytes) × (encode (zeros z ++ b ∷ p)
        ≡ some (replicate z b'1' ++ map letter (d ∷ t)))
      × (d ≢ 0)
      × Below 58 (d ∷ t)
      × (value 58 0 (d ∷ t) ≡ value 256 0 (b ∷ p))
encode-total z b p nz hb =
    let t = encode-Text z b p nz hb in (t.first, t.others, t.written, t.nonzero, t.digits, t.number)

-- `base58_decode` reads back what `base58_encode` writes for bytes with one that is not 0, if they
-- have no more zeros in front than the text is longer than they are (as where they have none).
pub decode-encode :
    (z b : ℕ) (p : Bytes) {text : Bytes}
    → b ≢ 0
    → IsBytes (b ∷ p)
    → encode (zeros z ++ b ∷ p) ≡ some text
    → z ≤ length text - length (zeros z ++ b ∷ p)
    → decode text ≡ some (zeros z ++ b ∷ p)
decode-encode z b p {text} nz hb h room =
    let t = encode-Text z b p nz hb in
    let digits = map letter (t.first ∷ t.others) in
    let ones : Bytes = replicate z b'1' in
    let written : encode (zeros z ++ b ∷ p) ≡ some (ones ++ digits) = t.written in
    let same : text ≡ ones ++ digits = cc in
    let long : length ones ≡ z = length-replicate z b'1' in
    let longer : length text ≡ length ones + length digits =
      ap length same ∙ length-append ones digits in
    rw same (
      decode-letters z b t.first p t.others nz t.nonzero hb t.digits t.number (
        omega (
          arith,
          length-map letter (t.first ∷ t.others),
          length-append (zeros z) (b ∷ p),
          length-zeros z,
        )))

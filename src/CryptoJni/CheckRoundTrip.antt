-- ===== src/CryptoJni/CheckRoundTrip.antt =====
-- `base58DecodeCheck` of crypto-wrapper.c on what `base58EncodeCheck` returns.
use chain_wallet.Common.{
  ℕ, ◌+◌, ◌-◌, ◌≡◌, ◌≢◌, ◌≤◌, ◌<◌, refl, sym, ◌∙◌, ap, true, false, some, none, [], ◌∷◌, ◌++◌,
  Bytes, length, zeros, arith, eq_self, ◌==◌, length-append, take, drop, take-append, drop-append,
  append_assoc, IsBytes, All-append, All-take, replicate,
}
use chain_wallet.Jni.Machine.{Ptr, M, pure, Jvm, lookup, ◌>>=◌}
use chain_wallet.Jni.Steps.{ready, used, bind_step, with_array}
use chain_wallet.Jni.Strings.{with_string}
use chain_wallet.Primitives.{Primitives}
use chain_wallet.Base58
use chain_wallet.Base58.RoundTrip.{encode-total, decode-encode}
use chain_wallet.Base58.{letter}
use mathlib.Core.List.{map}
use chain_wallet.Base58.Heap.{checksum, same_bytes}
use chain_wallet.CryptoJni.Base58Laws.{encode-IsText}
use chain_wallet.CryptoJni.CheckLaws.{
  length-checksum, base58_encode_check_lem, base58_decode_check_lem,
}
use chain_wallet.CryptoJni.Codecs

-- A client that encodes the array `r` and decodes the string that comes back.
abbrev pub encode_then_decode : Primitives → ℕ → M Ptr
encode_then_decode c r = do
  text ← Codecs.base58_encode_check c r
  elim text [ none ↦ pure none | some t ↦ Codecs.base58_decode_check c t ]

same_bytes_refl : (v : Bytes) → same_bytes v v ≡ true
same_bytes_refl [] = refl
same_bytes_refl (b ∷ v) = ground (arith, same_bytes_refl v)

module _ (c : Primitives) (z b : ℕ) (p : Bytes) (nz : b ≢ 0) (small : IsBytes (b ∷ p)) where
  abbrev input : Bytes
  input = zeros z ++ b ∷ p

  abbrev full : Bytes
  full = input ++ checksum c input

  rest : Bytes
  rest = p ++ checksum c input

  split : full ≡ zeros z ++ b ∷ rest
  unfolding rest
  split = append_assoc (zeros z) (b ∷ p) (checksum c input)

  rest-IsBytes : IsBytes (b ∷ rest)
  unfolding rest
  rest-IsBytes = (
    small.0,
    All-append (λ x. x < 256) p (checksum c input) small.1
        (All-take (λ x. x < 256) 4 (c.sha256 (c.sha256 input)) (c.sha256-IsBytes (c.sha256 input))),
  )

  -- `base58DecodeCheck` of what `base58EncodeCheck` made of an array is a new array with the same bytes,
  -- if one of them is not 0, they have no more zeros in front than the text is longer than they and
  -- their checksum are, and no request for memory is refused. No block is left.
  pub base58_decode_check-encode_check :
      (r : ℕ) (s : Jvm) {text : Bytes}
      → lookup r s.arrays ≡ some input
      → Base58.encode full ≡ some text
      → z ≤ length text - length full
      → encode_then_decode c r (ready 0 s)
        ≡ some (
          some (s.next_ref + 1),
          ready 0 (with_array input (used 4 (with_string text (used 5 s)))),
        )
  base58_decode_check-encode_check r s {text} given written room =
      let written' : Base58.encode (zeros z ++ b ∷ rest) ≡ some text =
        ap Base58.encode (sym split) ∙ written in
      let (d, t, e, first, digits, number) = encode-total z b rest nz rest-IsBytes in
      let spelled : text ≡ replicate z b'1' ++ map letter (d ∷ t) = cc in
      let some_text : (length text == 0) ≡ false =
        rw spelled (ground (arith, length-append (replicate z b'1') (map letter (d ∷ t)))) in
      let made : Base58.decode text ≡ some full =
        decode-encode z b rest nz rest-IsBytes written' (rw (← split) room) ∙ ap some (sym split) in
      let long : length full - 4 ≡ length input =
        omega (arith, length-append input (checksum c input), length-checksum c input) in
      let message : take (length full - 4) full ≡ input =
        rw long (take-append input (checksum c input)) in
      let tail : drop (length full - 4) full ≡ checksum c input =
        rw long (drop-append input (checksum c input)) in
      let good : same_bytes (checksum c (take (length full - 4) full)) (drop (length full - 4) full)
          ≡ true =
        rw (message, tail) (same_bytes_refl (checksum c input)) in
      bind_step _ _
        (base58_encode_check_lem c r input s given written
          (encode-IsText z b rest text nz rest-IsBytes written'))
        (base58_decode_check_lem c s.next_ref text full (with_string text (used 5 s))
            (rw eq_self refl) some_text made
            (omega (arith, length-append input (checksum c input), length-checksum c input)) good
          ∙ rw message refl)

-- ===== src/CryptoJni/Base32Laws.antt =====
-- What `base32Decode` of crypto-wrapper.c returns, and what it leaves behind.
use chain_wallet.Common.{
  ℕ, zero, suc, ◌-◌, ◌≡◌, refl, ◌∙◌, Bool, none, some, Bytes, length, ◌++◌, replicate, zeros, drop,
  length-zeros, arith, length-append,
}
use chain_wallet.Jni.Machine.{Jvm, heap, lookup}
use chain_wallet.Jni.Steps.{ready, block, used, with_array, with_block, bind_step, calloc_step}
use chain_wallet.Jni.Strings.{string_chars_step, string_length_step}
use chain_wallet.Base32
use chain_wallet.Base32.Padded.{length-base32_decode_padding}
use chain_wallet.CryptoJni.DigestLaws.{return_bytes_step}
use chain_wallet.CryptoJni.Parts.{write_part_step}
use chain_wallet.CryptoJni.Codecs

drop-replicate : (k n : ℕ) → drop k (zeros n) ≡ zeros (n - k)
drop-replicate zero n = let e : n - 0 ≡ n = omega arith in rw e refl
drop-replicate (suc k) zero = let e : 0 - suc k ≡ 0 = omega arith in rw e refl
drop-replicate (suc k) (suc n) =
    let e : suc n - suc k ≡ n - k = omega arith in rw e (drop-replicate k n)

-- The array that `base32Decode` makes: as long as the whole text asks for, its '=' included.
abbrev pub filled : Bytes → Bytes → Bytes
filled text bytes = bytes ++ zeros (Base32.base32_decoded_length (length text) - length bytes)

module _ (r : ℕ) (text : Bytes) (s : Jvm) (given : lookup r s.strings ≡ some text)
    (padding : Bool) where
  -- `base32Decode` of a text that is decoded returns a new array with the bytes, and behind them a
  -- zero for each byte that the '=' of the text would have stood for; this if no request for memory is
  -- refused. No block is left, and nothing else has changed.
  pub base32_decode_lem :
      {bytes : Bytes}
      → Base32.base32_decode_padding text (Base32.base32_decoded_length (length text)) ≡ some bytes
      → Codecs.base32_decode r padding (ready 0 s)
        ≡ some (some s.next_ref, ready 0 (with_array (filled text bytes) (used 1 s)))
  unfolding Codecs.base32_decode
  base32_decode_lem {bytes} made =
      let a = s.next_address in
      let n = Base32.base32_decoded_length (length text) in
      let short = length-base32_decode_padding text bytes n (omega arith) made in
      let rest = drop-replicate (length bytes) n in
      let whole = bytes ++ drop (length bytes) (zeros n) in
      let long : length whole ≡ n = rw rest (
        omega (
          arith,
          length-append bytes (zeros (n - length bytes)),
          length-zeros (n - length bytes),
        )) in
      bind_step _ _ (string_chars_step r text s given) (
        bind_step _ _ (string_length_step r text _ given) (
          bind_step _ _ (calloc_step 0 n _) (
            rw made (
              bind_step _ _
                (write_part_step 0 a (block a heap (replicate n 0)) bytes _ (ground arith)
                  (omega (arith, length-zeros n)))
                (return_bytes_step n a a whole _ long (ground arith) ∙ rw rest (ground arith))))))

  -- Of a text that is refused: NULL, and the block for the bytes is still there.
  pub base32_decode-none :
      Base32.base32_decode_padding text (Base32.base32_decoded_length (length text)) ≡ none
      → Codecs.base32_decode r padding (ready 0 s)
        ≡ some
            (none, ready 0 (with_block heap (zeros (Base32.base32_decoded_length (length text))) s))
  unfolding Codecs.base32_decode
  base32_decode-none refused = bind_step _ _ (string_chars_step r text s given) (
      bind_step _ _ (string_length_step r text _ given)
        (bind_step _ _ (calloc_step 0 _ _) (rw refused refl)))

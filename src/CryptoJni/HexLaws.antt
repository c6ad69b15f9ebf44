-- ===== src/CryptoJni/HexLaws.antt =====
-- What the wrappers of crypto-wrapper.c for hexadecimal text do.
use chain_wallet.Common.{
  ℕ, ◌+◌, ◌*◌, ◌≡◌, refl, sym, ◌∙◌, none, some, [], ◌∷◌, Bytes, length, arith, ◌++◌, zeros,
  length-zeros,
}
use chain_wallet.Jni.Machine.{Jvm, heap, critical, lookup}
use chain_wallet.Jni.Steps.{
  ready, block, used, with_array, bind_step, bind_fault, calloc_step, critical_step, read_step,
  write_step,
}
use chain_wallet.Jni.Faults.{write_past_end}
use chain_wallet.Jni.Steps.{lift_step}
use chain_wallet.Jni.Strings.{string_length_step, string_chars_step}
use chain_wallet.Common.{IsBytes, ◌/◌}
use chain_wallet.Hexstring
use chain_wallet.Hexstring.RoundTrip.{
  spell, IsShift, length-spell, length-spell_nul, hex_to_str-spell, str_to_hex-spell,
}
use chain_wallet.CryptoJni.DigestLaws.{return_bytes_step}
use chain_wallet.CryptoJni.Codecs

-- `hexToStr` writes one byte past the end of its block, whatever array of the machine it is given.
pub hex_to_str_overflows :
    (r : ℕ) (input : Bytes) (s : Jvm)
    → lookup r s.arrays ≡ some input
    → Codecs.hex_to_str r (ready 0 s) ≡ none
unfolding Codecs.hex_to_str
hex_to_str_overflows r input s given =
    let a = s.next_address in
    let text = spell 32 input ++ 0 ∷ [] in
    bind_step _ _ (critical_step r input s given) (
      bind_step _ _ (calloc_step 1 (length input * 2) _) (
        bind_step _ _ (read_step 1 a _ (block a (critical r) input) _ (ground arith) refl) (
          bind_step _ _ (lift_step _ text _ (hex_to_str-spell input 1)) (
            bind_fault _ _ (
              write_past_end 1 (a + 1) (block (a + 1) heap (zeros (length input * 2))) text _
                (ground arith)
                (ground (arith, length-zeros (length input * 2), length-spell_nul 32 input)))))))

half_length : (lower : ℕ) (bytes : Bytes) → length (spell lower bytes) / 2 ≡ length bytes
half_length lower bytes = omega (arith, length-spell lower bytes)

-- A string that `str_to_hex` reads, digits in any case.
pub str_to_hex_read :
    (r : ℕ) (text bytes : Bytes) (s : Jvm)
    → lookup r s.strings ≡ some text
    → Hexstring.str_to_hex (text ++ 0 ∷ []) (length text / 2) ≡ some bytes
    → length bytes ≡ length text / 2
    → Codecs.str_to_hex r (ready 0 s)
      ≡ some (some s.next_ref, ready 0 (with_array bytes (used 1 s)))
unfolding Codecs.str_to_hex
str_to_hex_read r text bytes s given read half =
    let a = s.next_address in
    let n = length text / 2 in
    bind_step _ _ (string_length_step r text s given) (
      bind_step _ _ (calloc_step 0 n _) (
        bind_step _ _ (string_chars_step r text _ given) (
          bind_step _ _ (lift_step _ bytes _ read) (
            bind_step _ _
              (write_step 0 a (block a heap (zeros n)) bytes _ (ground arith)
                (half ∙ sym (length-zeros n)))
              (return_bytes_step n a a bytes _ half (ground arith) ∙ ground arith)))))

-- `strToHex` of a string that spells bytes, in lower or in upper case, returns a new array that
-- holds the bytes, if no request for memory is refused. No block is left, and nothing else has
-- changed.
pub str_to_hex_lem :
    (r lower : ℕ) (bytes : Bytes) (s : Jvm)
    → IsShift lower
    → IsBytes bytes
    → lookup r s.strings ≡ some (spell lower bytes)
    → Codecs.str_to_hex r (ready 0 s)
      ≡ some (some s.next_ref, ready 0 (with_array bytes (used 1 s)))
str_to_hex_lem r lower bytes s shift small given =
    let half = half_length lower bytes in
    str_to_hex_read r (spell lower bytes) bytes s given
      (rw half (str_to_hex-spell lower bytes (0 ∷ []) shift small)) (sym half)

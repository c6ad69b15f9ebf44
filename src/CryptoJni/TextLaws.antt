-- ===== src/CryptoJni/TextLaws.antt =====
-- What the Base32 and Base58 wrappers of crypto-wrapper.c return, and what they leave behind.
use chain_wallet.Common.{
  ℕ, ◌+◌, ◌%◌, ◌≡◌, ◌≢◌, ◌<◌, refl, sym, ◌∙◌, ap, true, false, some, none, [], ◌∷◌, ◌++◌, Bytes,
  length, replicate, length-replicate, arith, ◌==◌, length-append, IsBytes, take-append, append-nil,
}
use chain_wallet.Jni.Machine.{Jvm, heap, critical, lookup}
use chain_wallet.Jni.Steps.{
  ready, block, used, bind_step, bind_fault, update-lookup, critical_step, read_step, write_step,
  calloc_step, malloc_step, lift_step, free_step, critical_release_step, with_array, with_block,
}
use chain_wallet.Jni.Strings.{
  IsText, with_string, new_string_step, string_length_step, string_chars_step,
}
use chain_wallet.Jni.Faults.{write_past_end}
use chain_wallet.CryptoJni.Parts.{return_part_step}
use chain_wallet.Base32
use chain_wallet.Base32.RoundTrip.{base32_encode-total, length-pad}
use chain_wallet.Base58
use chain_wallet.Base58.Heap
use chain_wallet.CryptoJni.Codecs
use chain_wallet.CryptoJni.Base58Laws.{touch_step}

module _ (r : ℕ) (input : Bytes) (s : Jvm) (given : lookup r s.arrays ≡ some input) where
  pub base32_encode_lem :
      {text : Bytes}
      → Base32.base32_encode input (Base32.base32_encoded_length (length input) + 1) ≡ some text
      → length text ≡ Base32.base32_encoded_length (length input)
      → IsText text
      → Codecs.base32_encode r false (ready 0 s)
        ≡ some (some s.next_ref, ready 0 (with_string text (used 2 s)))
  unfolding Codecs.base32_encode Base32.base32_encode_padding
  base32_encode_lem {text} made sized clean =
      let a = s.next_address in
      let n = Base32.base32_encoded_length (length input) + 1 in
      let plain : Base32.base32_encode_padding input n false ≡ some (text ++ 0 ∷ []) =
        rw made (ap (λ t. some (t ++ 0 ∷ [])) (append-nil text)) in
      let long : length (text ++ 0 ∷ []) ≡ n =
        length-append text (0 ∷ []) ∙ ap (λ k. k + 1) sized in
      bind_step _ _ (critical_step r input s given) (
        bind_step _ _ (calloc_step 1 n _) (
          bind_step _ _ (read_step 1 a _ (block a (critical r) input) _ (ground arith) refl) (
            rw plain (
              bind_step _ _
                (write_step 1 (a + 1) (block (a + 1) heap (replicate n 0)) (text ++ 0 ∷ [])
                  (with_block heap (replicate n 0) (with_block (critical r) input s)) (ground arith)
                  (long ∙ sym (length-replicate n 0)))
                (bind_step _ _ (critical_release_step 0 r a a input _ (ground arith)) (
                  bind_step _ _ (new_string_step (a + 1) (a + 1) text _ (ground arith) clean) (
                    bind_step _ _ (free_step 0 (a + 1) (a + 1) (text ++ 0 ∷ []) _ (ground arith))
                      (ground (arith, update-lookup r input s.arrays given)))))))))

ragged_length : (n : ℕ) → n % 5 ≢ 0 → Base32.base32_encoded_length n % 8 ≢ 0
unfolding Base32.base32_encoded_length
ragged_length n h = λ e. h (omega arith)

module _ (r : ℕ) (input : Bytes) (s : Jvm) (given : lookup r s.arrays ≡ some input) where
  -- `base32Encode` with padding writes past the end of its block wherever there is padding to write: for
  -- every array of bytes whose length is no multiple of five.
  pub base32_encode_overflows :
      IsBytes input → length input % 5 ≢ 0 → Codecs.base32_encode r true (ready 0 s) ≡ none
  unfolding Codecs.base32_encode Base32.base32_encode_padding
  base32_encode_overflows small ragged =
      let a = s.next_address in
      let n = Base32.base32_encoded_length (length input) + 1 in
      let (text, made, sized) = base32_encode-total input n small (omega arith) in
      let tail = Base32.pad 8 (length text) in
      let some_pad : 0 < length tail =
        length-pad (length text) (rw sized (ragged_length (length input) ragged)) in
      let padded : Base32.base32_encode_padding input n true ≡ some (text ++ tail ++ 0 ∷ []) =
        rw made refl in
      let over : n < length (text ++ tail ++ 0 ∷ []) =
        omega (arith, length-append (text ++ tail) (0 ∷ []), length-append text tail) in
      bind_step _ _ (critical_step r input s given) (
        bind_step _ _ (calloc_step 1 n _) (
          bind_step _ _ (read_step 1 a _ (block a (critical r) input) _ (ground arith) refl) (
            rw padded (
              bind_fault _ _ (
                write_past_end 1 (a + 1) (block (a + 1) heap (replicate n 0))
                  (text ++ tail ++ 0 ∷ []) _ (ground arith)
                  (rw (length-replicate {A = ℕ} n 0) over))))))

-- The machine once `base58_decode` has returned.
abbrev pub decoded : Bytes → Jvm → Jvm
decoded bytes s = record s {
  blocks = block (s.next_address + 2) heap (bytes ++ 0 ∷ []) ∷ s.blocks;
  next_address = s.next_address + 3;
}

pub decode_step :
    (text bytes : Bytes) (s : Jvm)
    → (length text == 0) ≡ false
    → Base58.decode text ≡ some bytes
    → Heap.base58_decode text (ready 0 s)
      ≡ some ((some (s.next_address + 2), some (length bytes)), ready 0 (decoded bytes s))
unfolding Heap.base58_decode Heap.decode_nonempty
decode_step text bytes s some_text made =
    let a = s.next_address in
    let n = length text in
    let m = length bytes + 1 in
    rw some_text (
      bind_step _ _ (malloc_step 0 n _) (
        bind_step _ _
          (touch_step 0 a n (block a heap (replicate n 0)) _ (ground arith) (length-replicate n 0))
          (bind_step _ _ (malloc_step 0 n _) (
            bind_step _ _
              (touch_step 0 (a + 1) n (block (a + 1) heap (replicate n 0)) _ (ground arith)
                (length-replicate n 0))
              (bind_step _ _ (lift_step _ bytes _ made) (
                bind_step _ _ (free_step 0 a a (replicate n 0) _ (ground arith)) (
                  bind_step _ _ (malloc_step 0 m _) (
                    bind_step _ _
                      (write_step 0 (a + 1 + 1) (block (a + 1 + 1) heap (replicate m 0))
                        (bytes ++ 0 ∷ []) _ (ground arith)
                        (length-append bytes (0 ∷ []) ∙ sym (length-replicate m 0)))
                      (bind_step _ _ (free_step 0 (a + 1) (a + 1) (replicate n 0) _ (ground arith))
                        (ground arith))))))))))

module _ (r : ℕ) (text : Bytes) (s : Jvm) (given : lookup r s.strings ≡ some text) where
  pub base58_decode_lem :
      {bytes : Bytes}
      → (length text == 0) ≡ false
      → Base58.decode text ≡ some bytes
      → Codecs.base58_decode r (ready 0 s)
        ≡ some (some s.next_ref, ready 0 (with_array bytes (used 3 s)))
  unfolding Codecs.base58_decode Codecs.return_sized
  base58_decode_lem {bytes} some_text made =
      let a = s.next_address in
      let n = length bytes in
      bind_step _ _ (string_chars_step r text s given) (
        bind_step _ _ (string_length_step r text _ given) (
          bind_step _ _ (decode_step text bytes s some_text made) (
            return_part_step n (a + 2) (a + 2) (bytes ++ 0 ∷ []) _
              (omega (arith, length-append bytes (0 ∷ []))) (ground arith)
            ∙ ground (arith, take-append bytes (0 ∷ [])))))

-- ===== src/CryptoJni/CheckLaws.antt =====
-- What `base58EncodeCheck` and `base58DecodeCheck` of crypto-wrapper.c return, and what they leave behind.
use chain_wallet.Common.{
  ℕ, zero, suc, ◌+◌, ◌-◌, ◌≡◌, ◌≤◌, refl, sym, ◌∙◌, ap, true, false, some, [], ◌∷◌, ◌++◌, Bytes,
  length, replicate, length-replicate, arith, eq_self, ◌==◌, length-append, take, drop, ltb,
  length-take, take-append,
}
use chain_wallet.Jni.Machine.{Ptr, Jvm, heap, critical, lookup}
use chain_wallet.Jni.Steps.{
  ready, block, used, bind_step, update-lookup, critical_step, read_step, write_step, malloc_step,
  free_step, critical_release_step, with_array, with_block,
}
use chain_wallet.Jni.Strings.{
  IsText, with_string, new_string_step, string_length_step, string_chars_step,
}
use chain_wallet.Primitives.{Primitives}
use chain_wallet.Base58
use chain_wallet.Base58.Heap
use chain_wallet.Base58.Heap.{checksum, same_bytes}
use chain_wallet.CryptoJni.Base58Laws.{encode_step}
use chain_wallet.CryptoJni.TextLaws.{decode_step, decoded}
use chain_wallet.CryptoJni.Parts.{read_part_step}
use chain_wallet.CryptoJni.DigestLaws.{return_bytes_step}
use chain_wallet.CryptoJni.Codecs
use chain_wallet.CryptoJni.Digests
use chain_wallet.Jni.Memory.{read}

pub length-checksum : (c : Primitives) (m : Bytes) → length (checksum c m) ≡ 4
length-checksum c m =
    omega (arith, length-take 4 (c.sha256 (c.sha256 m)), c.length-sha256 (c.sha256 m))

pub base58_encode_check_lem :
    (c : Primitives) (r : ℕ) (input : Bytes) (s : Jvm) {text : Bytes}
    → lookup r s.arrays ≡ some input
    → Base58.encode (input ++ checksum c input) ≡ some text
    → IsText text
    → Codecs.base58_encode_check c r (ready 0 s)
      ≡ some (some s.next_ref, ready 0 (with_string text (used 5 s)))
unfolding Codecs.base58_encode_check Heap.base58_encode_check
base58_encode_check_lem c r input s {text} given written clean =
    let a = s.next_address in
    let n = length input in
    let base = with_block (critical r) input s in
    let full = input ++ checksum c input in
    let long : length full ≡ n + 4 =
      length-append input (checksum c input) ∙ ap (λ k. n + k) (length-checksum c input) in
    let some_bytes : (length full == 0) ≡ false = rw long (ground arith) in
    bind_step _ _ (critical_step r input s given) (
      bind_step _ _
        (bind_step _ _ (read_step 1 a _ (block a (critical r) input) _ (ground arith) refl) (
          bind_step _ _ (malloc_step 1 (n + 4) _) (
            bind_step _ _
              (write_step 1 (a + 1) (block (a + 1) heap (replicate (n + 4) 0)) full _ (ground arith)
                  (long ∙ sym (length-replicate (n + 4) 0))
                ∙ rw eq_self refl)
              (bind_step _ _
                (ap (λ k. Heap.base58_encode (some (a + 1)) k (ready 1 (with_block heap full base)))
                    (sym long)
                  ∙ encode_step 1 heap full text base some_bytes written)
                (bind_step _ _ (free_step 1 (a + 1) (a + 1) full _ (ground arith)) refl)))))
        (bind_step _ _ (critical_release_step 0 r a a input _ (ground arith)) (
          bind_step _ _ (new_string_step (a + 1 + 3) (a + 1 + 3) text _ (ground arith) clean) (
            bind_step _ _ (free_step 0 (a + 1 + 3) (a + 1 + 3) (text ++ 0 ∷ []) _ (ground arith))
              (ground (arith, update-lookup r input s.arrays given))))))

-- The bytes before a given place do not depend on what is put behind.
take-append-short : (k : ℕ) (xs ys : Bytes) → k ≤ length xs → take k (xs ++ ys) ≡ take k xs
take-append-short zero xs ys h = refl
take-append-short (suc k) [] ys h = elim h [ ]
take-append-short (suc k) (x ∷ xs) ys h = ap (λ t. x ∷ t) (take-append-short k xs ys (omega arith))

module _ (c : Primitives) (r : ℕ) (text bytes : Bytes) (s : Jvm)
    (given : lookup r s.strings ≡ some text) (some_text : (length text == 0) ≡ false)
    (made : Base58.decode text ≡ some bytes) (long : 4 ≤ length bytes) where
  abbrev message : Bytes
  message = take (length bytes - 4) bytes

  abbrev tail : Bytes
  tail = drop (length bytes - 4) bytes

  abbrev parted : Bytes
  parted = bytes ++ 0 ∷ []

  whole : take (length bytes) parted ≡ bytes
  whole = take-append bytes (0 ∷ [])

  start : take (length bytes - 4) parted ≡ message
  start = take-append-short (length bytes - 4) bytes (0 ∷ []) (omega arith)

  length-message : length message ≡ length bytes - 4
  length-message = omega (arith, length-take (length bytes - 4) bytes)

  room : length parted ≡ length bytes + 1
  room = length-append bytes (0 ∷ [])

  -- The machine once the check has passed, and once it has failed.
  abbrev passed : Jvm
  passed = record s {
    blocks = block (s.next_address + 3) heap message ∷ s.blocks;
    next_address = s.next_address + 4;
  }

  abbrev failed : Jvm
  failed = with_block heap [] (decoded bytes s)

  message_step :
      read (some (s.next_address + 2)) (length bytes - 4) (ready 0 (decoded bytes s))
      ≡ some (message, ready 0 (decoded bytes s))
  message_step =
      let a = s.next_address in
      read_part_step 0 (a + 2) (length bytes - 4) (block (a + 2) heap parted) (decoded bytes s)
        (rw eq_self refl) (omega (arith, room))
      ∙ ap (λ v. some (v, ready 0 (decoded bytes s))) start

  whole_step :
      read (some (s.next_address + 2)) (length bytes) (ready 0 (decoded bytes s))
      ≡ some (bytes, ready 0 (decoded bytes s))
  whole_step =
      let a = s.next_address in
      read_part_step 0 (a + 2) (length bytes) (block (a + 2) heap parted) (decoded bytes s)
        (rw eq_self refl) (omega (arith, room))
      ∙ ap (λ v. some (v, ready 0 (decoded bytes s))) whole

  passed_step :
      same_bytes (checksum c message) tail ≡ true
      → Heap.check c (some (s.next_address + 2)) (length bytes) (ready 0 (decoded bytes s))
        ≡ some ((some (s.next_address + 3), some (length bytes - 4)), ready 0 passed)
  unfolding Heap.check
  passed_step good =
      let a = s.next_address in
      let n = length bytes in
      bind_step _ _ message_step (
        bind_step _ _ whole_step (
          rw good (
            bind_step _ _ (malloc_step 0 (n - 4) _) (
              bind_step _ _
                (write_step 0 (a + 3) (block (a + 3) heap (replicate (n - 4) 0)) message _
                  (ground arith) (length-message ∙ sym (length-replicate (n - 4) 0)))
                (bind_step _ _ (free_step 0 (a + 2) (a + 2) parted _ (ground arith))
                  (ground arith))))))

  failed_step :
      same_bytes (checksum c message) tail ≡ false
      → Heap.check c (some (s.next_address + 2)) (length bytes) (ready 0 (decoded bytes s))
        ≡ some ((some (s.next_address + 3), some 0), ready 0 failed)
  unfolding Heap.check
  failed_step bad =
      bind_step _ _ message_step
        (bind_step _ _ whole_step (rw bad (bind_step _ _ (malloc_step 0 0 _) refl)))

  checked :
      (t : Jvm) {p : Ptr} {k : ℕ}
      → Heap.check c (some (s.next_address + 2)) (length bytes) (ready 0 (decoded bytes s))
        ≡ some ((p, some k), ready 0 t)
      → Codecs.base58_decode_check c r (ready 0 s) ≡ Digests.return_bytes k p (ready 0 t)
  unfolding Codecs.base58_decode_check Heap.base58_decode_check Codecs.return_sized
  checked t {p} {k} done =
      let enough : ltb (length bytes) 4 ≡ false = ground arith in
      let inner : Heap.base58_decode_check c text (ready 0 s) ≡ some ((p, some k), ready 0 t) =
        bind_step _ _ (decode_step text bytes s some_text made) (rw enough done) in
      bind_step _ _ (string_chars_step r text s given)
        (bind_step _ _ (string_length_step r text _ given) (bind_step _ _ inner refl))

  -- `base58DecodeCheck` of a text whose last four bytes are the checksum of those before them returns
  -- a new array with those before them, if no request for memory is refused. The four blocks that it obtains are given up,
  -- and nothing else has changed.
  pub base58_decode_check_lem :
      same_bytes (checksum c message) tail ≡ true
      → Codecs.base58_decode_check c r (ready 0 s)
        ≡ some (some s.next_ref, ready 0 (with_array message (used 4 s)))
  base58_decode_check_lem good =
      let a = s.next_address in
      let n = length bytes in
      checked passed (passed_step good)
      ∙ return_bytes_step (n - 4) (a + 3) (a + 3) message passed length-message (rw eq_self refl)
      ∙ ground arith

  -- Where the last four bytes are not the checksum of those before them, `base58DecodeCheck` returns a
  -- new empty array, and the block with the bytes that were decoded is still there.
  pub base58_decode_check_refused :
      same_bytes (checksum c message) tail ≡ false
      → Codecs.base58_decode_check c r (ready 0 s)
        ≡ some (
          some s.next_ref,
          ready 0 (record (with_array [] (used 4 s)) {
            blocks = block (s.next_address + 2) heap (bytes ++ 0 ∷ []) ∷ s.blocks;
          }),
        )
  base58_decode_check_refused bad =
      let a = s.next_address in
      checked failed (failed_step bad)
      ∙ return_bytes_step 0 (a + 3) (a + 3) [] failed refl (rw eq_self refl)
      ∙ ground arith

-- ===== src/CryptoJni/Base58Laws.antt =====
-- What `base58Encode` of crypto-wrapper.c returns, and what it leaves behind.
use chain_wallet.Common.{
  ℕ, ◌+◌, ◌*◌, ◌≡◌, ◌≢◌, refl, sym, ◌∙◌, false, some, [], ◌∷◌, Bytes, length, replicate,
  length-replicate, arith, ◌==◌, ◌++◌, zeros, length-append,
}
use chain_wallet.Jni.Machine.{Kind, Block, Jvm, find_block, heap, critical, lookup}
use chain_wallet.Jni.Steps.{
  ready, block, used, with_block, bind_step, update-lookup, critical_step, read_step, write_step,
  free_step, critical_release_step,
}
use chain_wallet.Common.{IsBytes, All-append, zero, suc}
use chain_wallet.Jni.Steps.{malloc_step}
use chain_wallet.Jni.Steps.{lift_step}
use chain_wallet.Jni.Strings.{IsText, with_string, new_string_step}
use mathlib.Core.List.{map}
use chain_wallet.Base58
use chain_wallet.Base58.{letter}
use chain_wallet.Base58.Value.{Below}
use chain_wallet.Base58.Decode.{letter-nonzero}
use chain_wallet.Base58.RoundTrip.{encode-total}
use chain_wallet.Base58.Heap
use chain_wallet.CryptoJni.Codecs

letters-IsText : (ds : Bytes) → Below 58 ds → IsText (map letter ds)
letters-IsText [] h = tt
letters-IsText (d ∷ ds) (hd, h) = (letter-nonzero d hd, letters-IsText ds h)

ones-IsText : (z : ℕ) → IsText (replicate z b'1')
ones-IsText zero = tt
ones-IsText (suc z) = (omega arith, ones-IsText z)

-- What `base58_encode` writes has no NUL.
pub encode-IsText :
    (z b : ℕ) (p text : Bytes)
    → b ≢ 0
    → IsBytes (b ∷ p)
    → Base58.encode (zeros z ++ b ∷ p) ≡ some text
    → IsText text
encode-IsText z b p text nz small written =
    let (d, t, e, first, digits, number) = encode-total z b p nz small in
    let same : text ≡ replicate z b'1' ++ map letter (d ∷ t) = cc in
    rw same (
      All-append (λ c. c ≢ 0) (replicate z b'1') (map letter (d ∷ t)) (ones-IsText z)
        (letters-IsText (d ∷ t) digits))

nonempty : (z b : ℕ) (p : Bytes) → (length (zeros z ++ b ∷ p) == 0) ≡ false
nonempty z b p = ground (arith, length-append (zeros z) (b ∷ p))

pub touch_step :
    (i a n : ℕ) (b : Block) (s : Jvm)
    → find_block a s.blocks ≡ some b
    → length b.bytes ≡ n
    → Heap.touch (some a) n (ready i s) ≡ some (tt, ready i s)
unfolding Heap.touch
touch_step i a n b s h e = bind_step _ _ (read_step i a n b s h e) refl

-- The machine once `base58_encode` has returned.
abbrev pub encoded : Kind → Bytes → Bytes → Jvm → Jvm
encoded k input text s = record s {
  blocks =
      block (s.next_address + 3) heap (text ++ 0 ∷ []) ∷ block s.next_address k input ∷ s.blocks;
  next_address = s.next_address + 4;
}

pub encode_step :
    (i : ℕ) (k : Kind) (input text : Bytes) (s : Jvm)
    → (length input == 0) ≡ false
    → Base58.encode input ≡ some text
    → Heap.base58_encode (some s.next_address) (length input) (ready i (with_block k input s))
      ≡ some ((some (s.next_address + 3), some (length text)), ready i (encoded k input text s))
unfolding Heap.base58_encode Heap.encode_nonempty
encode_step i k input text s some_bytes written =
    let a = s.next_address in
    let n = length input in
    let out = text ++ 0 ∷ [] in
    let long = length-append text (0 ∷ []) in
    rw some_bytes (
      bind_step _ _ (malloc_step i n _) (
        bind_step _ _ (read_step i a _ (block a k input) _ (ground arith) refl) (
          bind_step _ _
            (write_step i (a + 1) (block (a + 1) heap (replicate n 0)) input _ (ground arith)
              (sym (length-replicate n 0)))
            (bind_step _ _ (malloc_step i (n * 2) _) (
              bind_step _ _
                (touch_step i (a + 1 + 1) (n * 2) (block (a + 1 + 1) heap (replicate (n * 2) 0)) _
                  (ground arith) (length-replicate (n * 2) 0))
                (bind_step _ _ (lift_step _ text _ written) (
                  bind_step _ _ (free_step i (a + 1) (a + 1) input _ (ground arith)) (
                    bind_step _ _ (malloc_step i (length text + 1) _) (
                      bind_step _ _
                        (write_step i (a + 1 + 1 + 1)
                          (block (a + 1 + 1 + 1) heap (replicate (length text + 1) 0)) out _
                          (ground arith) (long ∙ sym (length-replicate (length text + 1) 0)))
                        (bind_step _ _
                          (free_step i (a + 1 + 1) (a + 1 + 1) (replicate (n * 2) 0) _
                            (ground arith))
                          (ground arith)))))))))))

-- `base58Encode` returns a new string with the Base58 text of the array's bytes, of which one is
-- not 0, if no request for memory is refused. The four blocks that it obtains are given up, no JNI
-- call is made inside the critical region, and nothing else has changed.
pub base58_encode_lem :
    (r z b : ℕ) (p : Bytes) (s : Jvm) {text : Bytes}
    → lookup r s.arrays ≡ some (zeros z ++ b ∷ p)
    → b ≢ 0
    → IsBytes (b ∷ p)
    → Base58.encode (zeros z ++ b ∷ p) ≡ some text
    → Codecs.base58_encode r (ready 0 s)
      ≡ some (some s.next_ref, ready 0 (with_string text (used 4 s)))
unfolding Codecs.base58_encode
base58_encode_lem r z b p s {text} given nz small written =
    let a = s.next_address in
    let input = zeros z ++ b ∷ p in
    bind_step _ _ (critical_step r input s given) (
      bind_step _ _ (encode_step 1 (critical r) input text s (nonempty z b p) written) (
        bind_step _ _ (critical_release_step 0 r a a input _ (ground arith)) (
          bind_step _ _
            (new_string_step (a + 3) (a + 3) text _ (ground arith)
              (encode-IsText z b p text nz small written))
            (bind_step _ _ (free_step 0 (a + 3) (a + 3) (text ++ 0 ∷ []) _ (ground arith))
              (ground (arith, update-lookup r input s.arrays given))))))

-- ===== src/Base58/Heap.antt =====
-- The four functions of native-crypto/base58.c with the memory that they obtain and free. A length
-- that a function leaves unset is `none`.
use chain_wallet.Common.{
  ℕ, ◌+◌, ◌-◌, ◌*◌, Bool, true, false, ◌&&◌, Option, none, some, [], ◌∷◌, ◌++◌, Bytes, length, take,
  drop, ltb, ◌==◌, if◌then◌else◌,
}
use chain_wallet.Jni.Machine.{Ptr, M, pure, fault, lift, ◌>>=◌, ◌>>◌}
use chain_wallet.Jni.Memory.{malloc, free, read, write}
use chain_wallet.Primitives.{Primitives}
use chain_wallet.Base58.{encode, decode}

abbrev pub Sized : Type 0
Sized = Ptr × Option ℕ

-- What the loops do to a buffer of `n` bytes, of whose content `encode` and `decode` give account: a
-- buffer that was refused is a fault.
unfoldable pub touch : Ptr → ℕ → M (Unit {0})
touch buffer n = do bytes ← read buffer n; pure tt

unfoldable pub encode_nonempty : Ptr → ℕ → M Sized
encode_nonempty input n = do
  in_copy ← malloc n
  bytes ← read input n
  write in_copy bytes
  temp ← malloc (n * 2)
  touch temp (n * 2)
  text ← lift (encode bytes)
  free in_copy
  out ← malloc (length text + 1)
  write out (text ++ 0 ∷ [])
  free temp
  pure (out, some (length text))

unfoldable pub base58_encode : Ptr → ℕ → M Sized
base58_encode input n = if n == 0 then pure (none, none) else encode_nonempty input n

unfoldable pub decode_nonempty : Bytes → M Sized
decode_nonempty input = do
  input58 ← malloc (length input)
  touch input58 (length input)
  temp ← malloc (length input)
  touch temp (length input)
  bytes ← lift (decode input)
  free input58
  out ← malloc (length bytes + 1)
  write out (bytes ++ 0 ∷ [])
  free temp
  pure (out, some (length bytes))

unfoldable pub base58_decode : Bytes → M Sized
base58_decode input = if length input == 0 then pure (none, none) else decode_nonempty input

-- The comparison of four bytes.
abbrev pub same_bytes : Bytes → Bytes → Bool
same_bytes [] [] = true
same_bytes [] (b ∷ bs) = false
same_bytes (a ∷ as') [] = false
same_bytes (a ∷ as') (b ∷ bs) = a == b && same_bytes as' bs

module _ (c : Primitives) where
  abbrev pub checksum : Bytes → Bytes
  checksum m = take 4 (c.sha256 (c.sha256 m))

  unfoldable pub base58_encode_check : Ptr → ℕ → M Sized
  base58_encode_check input n = do
    message ← read input n
    new_input ← malloc (n + 4)
    write new_input (message ++ checksum message)
    base58 ← base58_encode new_input (n + 4)
    free new_input
    pure base58

  -- Where the check fails the decoded block is not freed.
  unfoldable pub check : Ptr → ℕ → M Sized
  check decoded n = do
    message ← read decoded (n - 4)
    all ← read decoded n
    if same_bytes (checksum message) (drop (n - 4) all)
        then (do
          result ← malloc (n - 4)
          write result message
          free decoded
          pure (result, some (n - 4)))
        else (do empty ← malloc 0; pure (empty, some 0))

  -- A length below 4 becomes negative, and `sha256_Raw` is then given a length of nearly 2 ^ 64; an
  -- unset length is read.
  unfoldable pub base58_decode_check : Bytes → M Sized
  base58_decode_check input = do
    (decoded, out_len) ← base58_decode input
    elim out_len [ none ↦ fault | some n ↦ if ltb n 4 then fault else check decoded n ]

-- ===== src/AesJni.antt =====
-- crypto/aes/src/main/cpp/aes-wrapper.c: `encrypt` and `decrypt` of `Aes` over the code of
-- native-crypto/aes, which is a parameter. The IV is read as 16 bytes in the modes that have one.
pub mod Kept
pub mod Moves
pub mod Follows
pub mod Steps
pub mod Laws
pub mod RoundTrip
pub mod Ecb
pub mod Refused
use chain_wallet.Common.{ℕ, Bool, ◌||◌, Option, none, some, Bytes, length, ◌≡◌, ◌==◌, if◌then◌else◌}
use chain_wallet.Jni.Machine.{Ptr, M, pure, ◌>>=◌, ◌>>◌}
use chain_wallet.Jni.Memory.{read, write}
use chain_wallet.Jni.Calls.{new_byte_array}
use chain_wallet.Jni.Method.{copy_array_to_c, copy_array_release, return_local}

-- A mode that changes the IV as it goes: of the context, the data and the IV. `none` is
-- EXIT_FAILURE.
abbrev pub Chained : Type 0
Chained = Bytes → Bytes → Bytes → Option (Bytes × Bytes)

-- A context is what a key expands to.
pub record Aes : Type 0 where
  pub encrypt_key : Bytes → Option Bytes
  pub decrypt_key : Bytes → Option Bytes
  pub ecb_encrypt : Bytes → Bytes → Option Bytes
  pub ecb_decrypt : Bytes → Bytes → Option Bytes
  pub cbc_encrypt : Chained
  pub cbc_decrypt : Chained
  pub cfb_encrypt : Chained
  pub cfb_decrypt : Chained
  pub ofb_encrypt : Chained
  pub ofb_decrypt : Chained
  pub ctr_encrypt : Chained
  pub ctr_decrypt : Chained

-- The output, if there is one; the IV's new bytes are written where the old ones stood.
unfoldable pub run_chained : Chained → Bytes → Bytes → Ptr → M (Option Bytes)
run_chained cipher ctx input iv = do
  v ← read iv 16
  elim (cipher ctx input v) [ none ↦ pure none | some (out, v') ↦ do write iv v'; pure (some out) ]

module _ (e : Aes) where
  unfoldable pub encrypt_switch : ℕ → Bytes → Bytes → Ptr → M (Option Bytes)
  encrypt_switch mode ctx input iv =
      if mode == 0
      then pure (e.ecb_encrypt ctx input)
      else if mode == 1
      then run_chained e.cbc_encrypt ctx input iv
      else if mode == 2
      then run_chained e.cfb_encrypt ctx input iv
      else if mode == 3
      then run_chained e.ofb_encrypt ctx input iv
      else if mode == 4
      then run_chained e.ctr_encrypt ctx input iv
      else pure none

  unfoldable pub decrypt_switch : ℕ → Bytes → Bytes → Ptr → M (Option Bytes)
  decrypt_switch mode ctx input iv =
      if mode == 0
      then pure (e.ecb_decrypt ctx input)
      else if mode == 1
      then run_chained e.cbc_decrypt ctx input iv
      else if mode == 2
      then run_chained e.cfb_decrypt ctx input iv
      else if mode == 3
      then run_chained e.ofb_decrypt ctx input iv
      else if mode == 4
      then run_chained e.ctr_decrypt ctx input iv
      else pure none

  -- ECB and CBC run the inverse cipher; the other modes run the cipher both ways.
  unfoldable pub expand_for_decrypt : ℕ → Bytes → Option Bytes
  expand_for_decrypt mode key =
      if mode == 0 || mode == 1 then e.decrypt_key key else e.encrypt_key key

-- The three arrays are given back in this order wherever a function ends.
unfoldable pub release_all : ℕ → ℕ → ℕ → Ptr → Ptr → Ptr → M (Unit {0})
release_all j_key j_data j_iv key input iv = do
  copy_array_release j_data input
  copy_array_release j_key key
  copy_array_release j_iv iv

unfoldable pub give_up : ℕ → ℕ → ℕ → Ptr → Ptr → Ptr → M Ptr
give_up j_key j_data j_iv key input iv = do
  release_all j_key j_data j_iv key input iv
  new_byte_array 0

-- Both functions, which differ in how the key is expanded and in what the mode selects.
unfoldable pub run :
    (Bytes → Option Bytes) → (Bytes → Bytes → Ptr → M (Option Bytes)) → ℕ → ℕ → ℕ → M Ptr
run expand switch j_key j_data j_iv = do
  (key, key_size) ← copy_array_to_c j_key
  (input, data_size) ← copy_array_to_c j_data
  (iv, iv_size) ← copy_array_to_c j_iv
  k ← read key key_size
  elim (expand k) [
    | none ↦ give_up j_key j_data j_iv key input iv
    | some ctx ↦ do
      d ← read input data_size
      ret ← switch ctx d iv
      elim ret [
        | none ↦ give_up j_key j_data j_iv key input iv
        | some obuf ↦ do
          return_bytes ← return_local data_size obuf
          release_all j_key j_data j_iv key input iv
          pure return_bytes
      ]
  ]

module _ (e : Aes) where
  unfoldable pub encrypt : ℕ → ℕ → ℕ → ℕ → M Ptr
  encrypt j_key j_data j_iv j_mode = run e.encrypt_key (encrypt_switch e j_mode) j_key j_data j_iv

  unfoldable pub decrypt : ℕ → ℕ → ℕ → ℕ → M Ptr
  decrypt j_key j_data j_iv j_mode =
      run (expand_for_decrypt e j_mode) (decrypt_switch e j_mode) j_key j_data j_iv

-- ===== src/Secp256k1.antt =====
-- native-crypto/secp256k1.c: the curve's functions over the generic ECDSA code (ecdsa.c), which is
-- a parameter.
use chain_wallet.Common.{
  ℕ, zero, suc, ◌≡◌, ◌⊎◌, take, ◌<◌, ◌/◌, ◌%◌, Bool, true, not, ◌&&◌, Option, none, some, [], ◌∷◌,
  Bytes, length, leb, ◌==◌, if◌then◌else◌,
}

-- The order of the curve's group.
unfoldable pub order : ℕ
order = 0xFFFFFFFFFFFFFFFFFFFFFFFFFFFFFFFEBAAEDCE6AF48A03BBFD25E8CD0364141

-- The test that a signature has to pass: of the recovery number and of the signature.
abbrev pub Canonic : Type 0
Canonic = ℕ → Bytes → Bool

abbrev pub passes : Option Canonic → ℕ → Bytes → Bool
passes none v sig = true
passes (some test) v sig = test v sig

-- `ecdsa_get_public_key33` and `65`, `ecdsa_sign_digest` (`none` is a status other than 0) and
-- `ecdsa_verify_digest` (0 is success), for the curve secp256k1.
pub record Ecdsa : Type 0 where
  pub public_key33 : Bytes → Bytes
  pub public_key65 : Bytes → Bytes
  pub sign_digest : Bytes → Bytes → Option Canonic → Option (Bytes × ℕ)
  pub verify_digest : Bytes → Bytes → Bytes → ℕ
  pub length-public_key33 : (k : Bytes) → length (public_key33 k) ≡ 33
  pub length-public_key65 : (k : Bytes) → length (public_key65 k) ≡ 65
  -- its first byte tells the parity of y
  pub compressed-public_key33 :
      (k : Bytes) → (take 1 (public_key33 k) ≡ 2 ∷ []) ⊎ (take 1 (public_key33 k) ≡ 3 ∷ [])
  pub length-sign_digest :
      (k d : Bytes) (t : Option Canonic) {sig : Bytes} {v : ℕ}
      → sign_digest k d t ≡ some (sig, v)
      → length sig ≡ 64
  pub sign_digest-lt :
      (k d : Bytes) (t : Option Canonic) {sig : Bytes} {v : ℕ}
      → sign_digest k d t ≡ some (sig, v)
      → v < 4
  pub sign_digest-passes :
      (k d : Bytes) (t : Option Canonic) {sig : Bytes} {v : ℕ}
      → sign_digest k d t ≡ some (sig, v)
      → passes t v sig ≡ true

-- `(v & 2) == 0`
unfoldable pub ethereum_is_canonic : Canonic
ethereum_is_canonic v sig = v / 2 % 2 == 0

abbrev byte_at : Bytes → ℕ → ℕ
byte_at [] i = 0
byte_at (b ∷ bs) zero = b
byte_at (b ∷ bs) (suc i) = byte_at bs i

-- `sig[i] & 0x80`
abbrev top_bit : Bytes → ℕ → Bool
top_bit sig i = leb 0x80 (byte_at sig i)

-- A signature has 64 bytes.
unfoldable pub eos_is_canonical : Canonic
eos_is_canonical v sig =
    not (top_bit sig 0)
    && not (byte_at sig 0 == 0 && not (top_bit sig 1))
    && not (top_bit sig 32)
    && not (byte_at sig 32 == 0 && not (top_bit sig 33))

module _ (e : Ecdsa) where
  unfoldable pub get_public : Bytes → ℕ → Bytes
  get_public key is_compress = if is_compress == 0 then e.public_key65 key else e.public_key33 key

  unfoldable pub sign : Bytes → Bytes → Option (Bytes × ℕ)
  sign key digest = e.sign_digest key digest none

  unfoldable pub eth_sign : Bytes → Bytes → Option (Bytes × ℕ)
  eth_sign key digest = e.sign_digest key digest (some ethereum_is_canonic)

  unfoldable pub eos_sign : Bytes → Bytes → Option (Bytes × ℕ)
  eos_sign key digest = e.sign_digest key digest (some eos_is_canonical)

  unfoldable pub verify : Bytes → Bytes → Bytes → ℕ
  verify pub_key sig digest = e.verify_digest pub_key sig digest

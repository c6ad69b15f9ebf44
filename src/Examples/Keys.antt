-- ===== src/Examples/Keys.antt =====
-- The wrappers for secp256k1 on a concrete machine.
use chain_wallet.Common.{
  none, ◌≡◌, refl, ◌<◌, true, some, [], ◌∷◌, Bytes, replicate, arith, zeros, ◌++◌, ltb→lt, ◌==◌,
}
use chain_wallet.Jni.Machine.{Jvm}
use chain_wallet.Jni.Steps.{ready, used, with_array}
use chain_wallet.Secp256k1
use chain_wallet.Secp256k1Jni
use chain_wallet.Secp256k1Jni.Digest.{eth_sign_any-lt}
use chain_wallet.Secp256k1Jni.Laws.{leaked, sign_lem}
use chain_wallet.Secp256k1Jni.Verify.{eth_sign_lem, verify_lem, verify_overreads}
use chain_wallet.Secp256k1Jni.RoundTrip.{sign_then_verify, verify-sign, IsPrivateKey, IsSignable}
use chain_wallet.Examples.Data.{ecdsa, machine, signature, are_bytes-IsBytes}

abbrev message : Bytes
message = 1 ∷ 2 ∷ 3 ∷ []

abbrev key : Bytes
key = replicate 32 7

-- A compressed public key that breaks off.
abbrev short_key : Bytes
short_key = 3 ∷ 1 ∷ []

abbrev machine_of_short_key : Jvm
machine_of_short_key = record machine { arrays = (0, short_key) ∷ machine.arrays }

signed : Secp256k1Jni.sign_any ecdsa key message ≡ some (signature, 0)
unfolding Secp256k1Jni.sign_any Secp256k1.sign
signed = refl

eth_signed : Secp256k1Jni.eth_sign_any ecdsa key (replicate 32 8) ≡ some (signature, 0)
unfolding Secp256k1Jni.eth_sign_any Secp256k1.eth_sign Secp256k1.ethereum_is_canonic
eth_signed = refl

public_key : Secp256k1.get_public ecdsa key 1 ≡ replicate 33 2
unfolding Secp256k1.get_public
public_key = refl

sign_lem_example :
    Secp256k1Jni.sign ecdsa 1 0 (ready 0 machine)
    ≡ some (some 30, ready 0 (with_array signature (leaked signature machine)))
sign_lem_example = sign_lem ecdsa 1 0 key message machine refl refl refl (omega arith) refl signed

eth_sign_lem_example :
    Secp256k1Jni.eth_sign ecdsa 1 2 true (ready 0 machine)
    ≡ some (
      some (some 30, some 31),
      ready 0 (with_array (31 ∷ []) (with_array signature (leaked signature machine))),
    )
eth_sign_lem_example =
    eth_sign_lem ecdsa 1 2 key (replicate 32 8) machine refl refl true refl (omega arith) refl refl
      eth_signed

eth_sign_any-lt_example : 0 < 2
eth_sign_any-lt_example = eth_sign_any-lt ecdsa key (replicate 32 8) refl eth_signed

verify_lem_example :
    Secp256k1Jni.verify ecdsa 5 3 0 (ready 0 machine)
    ≡ some (
      Secp256k1.verify ecdsa (replicate 33 2) signature (Secp256k1Jni.padding_list message) == 0,
      ready 0 (used 3 machine),
    )
verify_lem_example =
    verify_lem ecdsa 5 3 0 (replicate 33 2) signature message machine refl refl refl (omega arith)
      refl (omega arith)

verify_overreads_example : Secp256k1Jni.verify ecdsa 0 3 0 (ready 0 machine_of_short_key) ≡ none
verify_overreads_example =
    verify_overreads ecdsa 0 3 0 short_key signature short_key machine_of_short_key refl refl refl
      (omega arith) (omega arith)

key-IsPrivateKey : IsPrivateKey key
unfolding Secp256k1.order
key-IsPrivateKey = (are_bytes-IsBytes key refl, refl, ltb→lt 0 _ refl, ltb→lt _ _ refl)

message-IsSignable : IsSignable (Secp256k1Jni.padding_list message)
unfolding Secp256k1.order Secp256k1Jni.padding_list
message-IsSignable = (are_bytes-IsBytes (zeros 29 ++ message) refl, refl, ltb→lt 0 _ refl)

verify-sign_example :
    sign_then_verify ecdsa 1 0 5 (ready 0 machine)
    ≡ some (true, ready 0 (used 3 (with_array signature (leaked signature machine))))
verify-sign_example =
    verify-sign ecdsa 1 0 5 key message machine (λ k d sig v valid whole h. refl) refl refl refl
      key-IsPrivateKey message-IsSignable (omega arith) refl signed

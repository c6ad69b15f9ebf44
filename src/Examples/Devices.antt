-- ===== src/Examples/Devices.antt =====
-- AES and the check of the app's certificate on concrete inputs.
use chain_wallet.Common.{
  ◌≡◌, refl, none, some, [], ◌∷◌, Bytes, replicate, if◌then◌else◌, IsBytes, leb,
}
use chain_wallet.Jni.Steps.{ready, used, with_array, set_array}
use chain_wallet.Hexstring.RoundTrip.{spell}
use chain_wallet.AesJni
use chain_wallet.AesJni.Laws.{cbc, ctr, encrypt_chained_lem}
use chain_wallet.AesJni.RoundTrip.{encrypt_then_decrypt, decrypt-encrypt}
use chain_wallet.Authority
use chain_wallet.Authority.{app_digests, auth_key, terminated}
use chain_wallet.Authority.Laws.{listed, get_authority_key_lem, authority_check_validity_lem}
use chain_wallet.Common.Chain.{◌>>=◌}
use chain_wallet.Examples.Data.{
  are_bytes-IsBytes, plain-undone, aes, device, digest_of_app, machine, signature,
}

abbrev counted_up : Bytes
counted_up = 1 ∷ replicate 15 0

encrypt_chained_lem_example :
    AesJni.encrypt aes 4 3 4 1 (ready 0 machine)
    ≡ some (some 30, ready 0 (with_array signature (set_array 4 counted_up (used 3 machine))))
encrypt_chained_lem_example =
    encrypt_chained_lem aes cbc 4 3 4 (replicate 16 0) signature (replicate 16 0) machine refl refl
      refl refl refl refl refl refl refl

digest-IsBytes : IsBytes digest_of_app
digest-IsBytes = are_bytes-IsBytes digest_of_app refl

found :
    (if leb 28 (Authority.current_android_os_version device)
      then Authority.get_signature_sha1_by28 device 0
      else Authority.get_signature_sha1_by1 device 0)
    ≡ some (some (7 ∷ []))
unfolding Authority.current_android_os_version Authority.get_signature_sha1_by28
    Authority.get_signature_sha1_by1 Authority.first_signature
found = refl

get_authority_key_lem_example : Authority.get_authority_key device 0 ≡ (
    Authority.authority_check_validity device 0 >>= λ valid.
    some (if valid then none else some auth_key))
get_authority_key_lem_example = get_authority_key_lem device 0

authority_check_validity_lem_example :
    Authority.authority_check_validity device 0 ≡ some (listed (spell 0 digest_of_app) app_digests)
authority_check_validity_lem_example =
    authority_check_validity_lem device 0 (7 ∷ []) (7 ∷ []) found refl digest-IsBytes

decrypt-encrypt_example :
    encrypt_then_decrypt aes ctr 4 3 7 8 (ready 0 machine)
    ≡ some (
      some 31,
      ready 0 (
          with_array signature (
            set_array 8 counted_up
              (used 3 (with_array signature (set_array 7 counted_up (used 3 machine)))))),
    )
decrypt-encrypt_example =
    decrypt-encrypt aes ctr 4 3 7 8 (replicate 16 0) signature (replicate 16 0) machine
      (λ key ctx ctx' input iv out v h h' h''. plain-undone ctx ctx' input iv out v h'') refl refl
      refl refl refl refl refl refl refl refl refl refl refl refl

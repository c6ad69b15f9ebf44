-- ===== src/Native/TextsMeet.antt =====
-- The functions of `CryptoJNI` for text formats and their promises.
use chain_wallet.Common.{
  take_all, length-drop, ◌/◌, zero, ◌≤◌, ◌&&◌, ◌++◌, zeros, ◌==◌, ◌-◌, ℕ, suc, ◌≡◌, ◌≢◌, refl, sym,
  ◌∙◌, ap, ◌+◌, ◌<◌, [], ◌∷◌, Bool, true, false, not, some, arith, length, Bytes, IsBytes,
  All-append, All-take, take, drop, leb, Bool-cases, inl, inr,
}
use chain_wallet.Jni.Machine.{Jvm, lookup}
use chain_wallet.Jni.Steps.{ready}
use chain_wallet.Jni.Strings.{IsText}
use mathlib.Core.List.{map}
use chain_wallet.Base32
use chain_wallet.Base32.RoundTrip.{
  symbol, Below32, base32_encode-symbols, encode_unsafe-Below32, base32_encode-total,
}
use chain_wallet.Hexstring.RoundTrip.{length-str_to_hex}
use chain_wallet.Der.RoundTrip.{der_to_sig-sig_to_der}
use chain_wallet.Der.Accepted.{der_to_sig-accepted}
use chain_wallet.Der
use chain_wallet.CryptoJni.Codecs
use chain_wallet.Base58
use chain_wallet.Der.{Status, accepted, rejected}
use chain_wallet.CryptoJni.HexLaws.{str_to_hex_read}
use chain_wallet.CryptoJni.Base58Laws.{base58_encode_lem, encode-IsText}
use chain_wallet.CryptoJni.CheckLaws.{
  base58_encode_check_lem, base58_decode_check_lem, base58_decode_check_refused,
}
use chain_wallet.Base58.Heap.{checksum, same_bytes}
use chain_wallet.CryptoJni.DerLaws.{der_to_sig_lem, der_to_sig_rejected, sig_to_der_lem}
use chain_wallet.CryptoJni.TextLaws.{base58_decode_lem, base32_encode_lem}
use chain_wallet.CryptoJni.Base32Laws.{base32_decode_lem, base32_decode-none}
use chain_wallet.Native.{Library, Request, reference, perform}
use chain_wallet.Native.View.{are_bytes, has_nonzero, choose, of_status, view}
use chain_wallet.Native.Spec.{spec}
use chain_wallet.Native.Implements.{
  Meets, Implements, needs-Implements, choose-Implements, bind-Implements, if-Implements, answer,
}

are_bytes-IsBytes : (v : Bytes) → are_bytes v ≡ true → IsBytes v
are_bytes-IsBytes [] h = tt
are_bytes-IsBytes (b ∷ v) h = (ground arith, are_bytes-IsBytes v (ground arith))

-- The zeros before the first byte that is none.
leading :
    (v : Bytes)
    → has_nonzero v ≡ true
    → IsBytes v
    → (z : ℕ) × (b : ℕ) × (p : Bytes) × (v ≡ zeros z ++ b ∷ p) × (b ≢ 0) × IsBytes (b ∷ p)
leading [] h bs = cc
leading (b ∷ v) h (hb, bs) = elim (Bool-cases (b == 0)) [
  | inl e ↦
      let (z, c, p, same, nz, small) = leading v (ground arith) bs in
      let none_yet : b ≡ 0 = ground arith in (suc z, c, p, rw (none_yet, same) refl, nz, small)
  | inr e ↦ (0, b, v, refl, (λ k. ground arith), (hb, bs))
]

has_nonzero-zeros : (n : ℕ) → has_nonzero (zeros n) ≡ false
has_nonzero-zeros zero = refl
has_nonzero-zeros (suc n) = has_nonzero-zeros n

nonzero-take : (n : ℕ) (v : Bytes) → length v ≤ n → has_nonzero v ≡ true → take n v ≢ zeros n
nonzero-take n v short h same =
    let zeros_only : v ≡ zeros n = sym (take_all n v short) ∙ same in
    let contra : true ≡ false = sym h ∙ ap has_nonzero zeros_only ∙ has_nonzero-zeros n in cc

symbols-IsText : (vs : Bytes) → Below32 vs → IsText (map symbol vs)
symbols-IsText [] h = tt
symbols-IsText (v ∷ vs) (hv, h) = (λ e. ground arith, symbols-IsText vs h)

module _ (l : Library) (s : Jvm) where
  pub str_to_hex-Meets : (r : ℕ) → Meets l s (Request.str_to_hex r)
  unfolding perform spec
  str_to_hex-Meets r = bind-Implements _ _ (lookup r s.strings) _ λ v e.
      bind-Implements _ _ _ _ λ x f.
        answer reference _ s _
          (str_to_hex_read r v x s e f (length-str_to_hex (v ++ 0 ∷ []) (length v / 2) f)) refl

  pub base58_encode-Meets : (r : ℕ) → Meets l s (Request.base58_encode r)
  unfolding perform spec
  base58_encode-Meets r = bind-Implements _ _ (lookup r s.arrays) _ λ v e.
      bind-Implements _ _ _ _ λ x f. needs-Implements _ _ _ _ λ h.
        let (z, b, p, same, nz, small) =
          leading v (ground arith) (are_bytes-IsBytes v (ground arith)) in
        answer reference _ s _
          (base58_encode_lem r z b p s (e ∙ ap some same) nz small
            (ap Base58.encode (sym same) ∙ f))
          refl

  pub base58_decode-Meets : (r : ℕ) → Meets l s (Request.base58_decode r)
  unfolding perform spec
  base58_decode-Meets r = bind-Implements _ _ (lookup r s.strings) _ λ v e.
      bind-Implements _ _ _ _ λ x f.
        needs-Implements _ _ _ _
          λ h. answer reference _ s _ (base58_decode_lem r v s e (ground arith) f) refl

  pub base58_encode_check-Meets : (r : ℕ) → Meets l s (Request.base58_encode_check r)
  unfolding perform spec
  base58_encode_check-Meets r = bind-Implements _ _ (lookup r s.arrays) _ λ v e.
      let full : Bytes = v ++ checksum l.primitives v in
      bind-Implements _ _ (Base58.encode full) _ λ x f.
        needs-Implements _ _ (has_nonzero full && are_bytes v) _ λ h.
          let bytes : IsBytes full =
            All-append (λ b. b < 256) v (checksum l.primitives v)
              (are_bytes-IsBytes v (ground arith))
              (All-take (λ b. b < 256) 4 (l.primitives.sha256 (l.primitives.sha256 v))
                (l.primitives.sha256-IsBytes (l.primitives.sha256 v))) in
          let (z, b, p, same, nz, small) = leading full (ground arith) bytes in
          answer reference _ s _
            (base58_encode_check_lem l.primitives r v s e f
              (encode-IsText z b p x nz small (ap Base58.encode (sym same) ∙ f)))
            refl

  pub base58_decode_check-Meets : (r : ℕ) → Meets l s (Request.base58_decode_check r)
  unfolding perform spec
  base58_decode_check-Meets r = bind-Implements _ _ (lookup r s.strings) _ λ v e.
      bind-Implements _ _ (Base58.decode v) _ λ x f.
        needs-Implements _ _ (not (length v == 0) && leb 4 (length x)) _ λ h.
          if-Implements _ _
            (same_bytes (checksum l.primitives (take (length x - 4) x)) (drop (length x - 4) x)) _ _
            (λ good.
              answer reference _ s _
                (base58_decode_check_lem l.primitives r v x s e (ground arith) f (ground arith)
                  good)
                tt)
            (λ bad.
              answer reference _ s _
                (base58_decode_check_refused l.primitives r v x s e (ground arith) f (ground arith)
                  bad)
                tt)

  pub base32_encode-Meets : (r : ℕ) (padding : Bool) → Meets l s (Request.base32_encode r padding)
  unfolding perform spec
  base32_encode-Meets r padding = bind-Implements _ _ (lookup r s.arrays) _ λ v e.
      needs-Implements _ _ (not padding) _ λ h. bind-Implements _ _ _ _ λ x f.
        needs-Implements _ _ (are_bytes v) _ λ small.
          let bytes = are_bytes-IsBytes v small in
          let (text, made, sized) =
            base32_encode-total v (Base32.base32_encoded_length (length v) + 1) bytes
              (omega arith) in
          let plain : padding ≡ false = ground arith in
          answer reference _ s _
            (ap (λ p. Codecs.base32_encode r p (ready 0 s)) plain
              ∙ base32_encode_lem r v s e f
                  (ap (λ o. length (choose o [] (λ t. t))) (sym f ∙ made) ∙ sized)
                  (rw (base32_encode-symbols v x _ bytes f) (
                    symbols-IsText (Base32.base32_encode_unsafe v)
                      (encode_unsafe-Below32 v bytes))))
            refl

  pub base32_decode-Meets : (r : ℕ) (padding : Bool) → Meets l s (Request.base32_decode r padding)
  unfolding perform spec
  base32_decode-Meets r padding = bind-Implements _ _ (lookup r s.strings) _ λ v e.
      choose-Implements _ _
        (Base32.base32_decode_padding v (Base32.base32_decoded_length (length v))) _ _
        (λ f. answer reference _ s _ (base32_decode-none r v s e padding f) tt)
        (λ x f. answer reference _ s _ (base32_decode_lem r v s e padding f) tt)

  pub sig_to_der-Meets : (r : ℕ) → Meets l s (Request.sig_to_der r)
  unfolding perform spec
  sig_to_der-Meets r = bind-Implements _ _ (lookup r s.arrays) _ λ v e.
      bind-Implements _ _ (Der.sig_to_der v) _ λ x f.
        needs-Implements _ _ (length v == 64 && has_nonzero (drop 32 v)) _ λ h.
          let long : length v ≡ 64 = ground arith in
          let nz : take 32 (drop 32 v) ≢ zeros 32 =
            nonzero-take 32 (drop 32 v) (omega (arith, length-drop 32 v)) (ground arith) in
          let (der, n, made, sized, short, back) = der_to_sig-sig_to_der v long nz in
          let found : some x ≡ some (der, n) = sym f ∙ made in
          let same : x ≡ (der, n) = cc in
          answer reference _ s _ (sig_to_der_lem r v s e f (rw same sized) (rw same short)) refl

  by_status :
      (r : ℕ) (v : Bytes)
      → lookup r s.arrays ≡ some v
      → (x : Status (Bytes × ℕ)) → Der.der_to_sig v ≡ some x
      → Implements true (perform l (Request.der_to_sig r)) s (of_status x (view s))
  unfolding perform
  by_status r v e rejected f = answer reference _ s _ (der_to_sig_rejected r v s e f) refl
  by_status r v e (accepted (g, n)) f =
      let (len, rest, begins, sized, count) = der_to_sig-accepted v f in
      answer reference _ s _ (der_to_sig_lem r v s e f sized) refl

  pub der_to_sig-Meets : (r : ℕ) → Meets l s (Request.der_to_sig r)
  unfolding perform spec
  der_to_sig-Meets r =
      bind-Implements _ _ (lookup r s.arrays) _
        λ v e. bind-Implements _ _ (Der.der_to_sig v) _ λ x f. by_status r v e x f

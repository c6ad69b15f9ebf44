-- ===== src/Der/Overread.antt =====
-- A signature whose second half is zero: `sig_to_der` reads past its end.
use chain_wallet.Common.{◌≡◌, refl, none, Bytes, drop, zeros, Option-cases, inl, inr}
use chain_wallet.Der.{skip_zeros, integer_content, sig_to_der}

pub sig_to_der-zero_half : (sig : Bytes) → drop 32 sig ≡ zeros 32 → sig_to_der sig ≡ none
unfolding sig_to_der integer_content skip_zeros
sig_to_der-zero_half sig h = elim (Option-cases (integer_content sig)) [
  | inl e ↦ rw e refl
  | inr (r, e) ↦ rw (e, h) refl
]

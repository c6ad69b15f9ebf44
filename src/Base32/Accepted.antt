-- ===== src/Base32/Accepted.antt =====
-- Which texts base32.c decodes: those of letters of the alphabet, in upper or lower case, whose length
-- leaves 0, 2, 4, 5 or 7 when it is divided by 8.
use chain_wallet.Common.{
  ℕ, suc, ◌%◌, ◌≤◌, ◌≡◌, refl, ◌∙◌, sym, Bool, true, false, ◌&&◌, Option, none, some, [], ◌∷◌, ◌++◌,
  Bytes, length, All-append, ltb, arith, Bool-cases, Option-cases, inl, inr, length-append,
}
use chain_wallet.Base32.{base32_decoded_length, base32_8to5, base32_decode_unsafe, base32_decode}
use chain_wallet.Base32.Groups.{
  is_letter, are_letters, is_whole, is_group, Read, group_total, group_others, group_none,
}

none_left : length {A = ℕ} [] ≡ base32_decoded_length 0
unfolding base32_decoded_length
none_left = refl

both_sized :
    (n : ℕ) (first more : Bytes)
    → length first ≡ base32_decoded_length 8
    → length more ≡ base32_decoded_length n
    → length (first ++ more)
      ≡ base32_decoded_length (suc (suc (suc (suc (suc (suc (suc (suc n))))))))
unfolding base32_decoded_length
both_sized n first more e f = omega (arith, length-append first more)

whole_step : (n : ℕ) → is_whole (suc (suc (suc (suc (suc (suc (suc (suc n)))))))) ≡ is_whole n
whole_step n =
    let same : suc (suc (suc (suc (suc (suc (suc (suc n))))))) % 8 ≡ n % 8 = omega arith in
    rw same refl

letters-append :
    (xs ys : Bytes)
    → are_letters (xs ++ ys) ≡ true
    → (are_letters xs ≡ true) × (are_letters ys ≡ true)
letters-append [] ys h = (refl, h)
letters-append (x ∷ xs) ys h = elim (Bool-cases (is_letter x)) [
  | inl e ↦ let both = letters-append xs ys (rw e at h) in (rw e (both.0), both.1)
  | inr e ↦ let wrong : false ≡ true = rw e at h in cc
]

others-append :
    (xs ys : Bytes)
    → are_letters (xs ++ ys) ≡ false
    → are_letters xs ≡ true
    → are_letters ys ≡ false
others-append [] ys h k = h
others-append (x ∷ xs) ys h k = elim (Bool-cases (is_letter x)) [
  | inl e ↦ others-append xs ys (rw e at h) (rw e at k)
  | inr e ↦ let wrong : false ≡ true = rw e at k in cc
]

decode_unsafe-total :
    (cs : Bytes)
    → are_letters cs ≡ true
    → is_whole (length cs) ≡ true
    → (bytes : Bytes) × (base32_decode_unsafe cs ≡ some bytes) × Read cs bytes
unfolding base32_decode_unsafe is_group
decode_unsafe-total [] h w = ([], refl, (none_left, tt))
decode_unsafe-total (a ∷ []) h w = cc
decode_unsafe-total (a ∷ b ∷ []) h w = group_total (a ∷ b ∷ []) h refl
decode_unsafe-total (a ∷ b ∷ c ∷ []) h w = cc
decode_unsafe-total (a ∷ b ∷ c ∷ d ∷ []) h w = group_total (a ∷ b ∷ c ∷ d ∷ []) h refl
decode_unsafe-total (a ∷ b ∷ c ∷ d ∷ e ∷ []) h w = group_total (a ∷ b ∷ c ∷ d ∷ e ∷ []) h refl
decode_unsafe-total (a ∷ b ∷ c ∷ d ∷ e ∷ f ∷ []) h w = cc
decode_unsafe-total (a ∷ b ∷ c ∷ d ∷ e ∷ f ∷ i ∷ []) h w =
    group_total (a ∷ b ∷ c ∷ d ∷ e ∷ f ∷ i ∷ []) h refl
decode_unsafe-total (a ∷ b ∷ c ∷ d ∷ e ∷ f ∷ i ∷ j ∷ rest) h w =
    let group : Bytes = a ∷ b ∷ c ∷ d ∷ e ∷ f ∷ i ∷ j ∷ [] in
    let (h8, hs) = letters-append group rest h in
    let (first, x, (sized, are)) = group_total group h8 refl in
    let (more, xs, (sized', are')) =
      decode_unsafe-total rest hs (sym (whole_step (length rest)) ∙ w) in
    (
      first ++ more,
      rw (x, xs) refl,
      (both_sized (length rest) first more sized sized', All-append _ first more are are'),
    )

decode_unsafe-others : (cs : Bytes) → are_letters cs ≡ false → base32_decode_unsafe cs ≡ none
unfolding base32_decode_unsafe is_group
decode_unsafe-others [] h = cc
decode_unsafe-others (a ∷ []) h = group_others (a ∷ []) h
decode_unsafe-others (a ∷ b ∷ []) h = group_others (a ∷ b ∷ []) h
decode_unsafe-others (a ∷ b ∷ c ∷ []) h = group_others (a ∷ b ∷ c ∷ []) h
decode_unsafe-others (a ∷ b ∷ c ∷ d ∷ []) h = group_others (a ∷ b ∷ c ∷ d ∷ []) h
decode_unsafe-others (a ∷ b ∷ c ∷ d ∷ e ∷ []) h = group_others (a ∷ b ∷ c ∷ d ∷ e ∷ []) h
decode_unsafe-others (a ∷ b ∷ c ∷ d ∷ e ∷ f ∷ []) h = group_others (a ∷ b ∷ c ∷ d ∷ e ∷ f ∷ []) h
decode_unsafe-others (a ∷ b ∷ c ∷ d ∷ e ∷ f ∷ i ∷ []) h =
    group_others (a ∷ b ∷ c ∷ d ∷ e ∷ f ∷ i ∷ []) h
decode_unsafe-others (a ∷ b ∷ c ∷ d ∷ e ∷ f ∷ i ∷ j ∷ rest) h =
    elim (Bool-cases (are_letters (a ∷ b ∷ c ∷ d ∷ e ∷ f ∷ i ∷ j ∷ []))) [
      | inl k ↦
          let (first, made, read) = group_total (a ∷ b ∷ c ∷ d ∷ e ∷ f ∷ i ∷ j ∷ []) k refl in
          rw
            (
              made,
              decode_unsafe-others rest
                  (others-append (a ∷ b ∷ c ∷ d ∷ e ∷ f ∷ i ∷ j ∷ []) rest h k),
            )
            refl
      | inr k ↦ rw (group_others (a ∷ b ∷ c ∷ d ∷ e ∷ f ∷ i ∷ j ∷ []) k) refl
    ]

decode_unsafe-none : (cs : Bytes) → is_whole (length cs) ≡ false → base32_decode_unsafe cs ≡ none
unfolding base32_decode_unsafe is_group
decode_unsafe-none [] w = cc
decode_unsafe-none (a ∷ []) w = group_none (a ∷ []) refl
decode_unsafe-none (a ∷ b ∷ []) w = cc
decode_unsafe-none (a ∷ b ∷ c ∷ []) w = group_none (a ∷ b ∷ c ∷ []) refl
decode_unsafe-none (a ∷ b ∷ c ∷ d ∷ []) w = cc
decode_unsafe-none (a ∷ b ∷ c ∷ d ∷ e ∷ []) w = cc
decode_unsafe-none (a ∷ b ∷ c ∷ d ∷ e ∷ f ∷ []) w = group_none (a ∷ b ∷ c ∷ d ∷ e ∷ f ∷ []) refl
decode_unsafe-none (a ∷ b ∷ c ∷ d ∷ e ∷ f ∷ i ∷ []) w = cc
decode_unsafe-none (a ∷ b ∷ c ∷ d ∷ e ∷ f ∷ i ∷ j ∷ rest) w =
    elim (Option-cases (base32_8to5 (a ∷ b ∷ c ∷ d ∷ e ∷ f ∷ i ∷ j ∷ []))) [
      | inl k ↦ rw k refl
      | inr (first, k) ↦ rw (k, decode_unsafe-none rest (sym (whole_step (length rest)) ∙ w)) refl
    ]

abbrev pub is_text : Bytes → Bool
is_text text = are_letters text && is_whole (length text)

-- Of a text: what its decoding gives.
abbrev pub Outcome : Bytes → Option Bytes → Type 0
Outcome text none = is_text text ≡ false
Outcome text (some bytes) = (is_text text ≡ true) × Read text bytes

decode_unsafe-Outcome : (text : Bytes) → Outcome text (base32_decode_unsafe text)
decode_unsafe-Outcome text = elim (Bool-cases (are_letters text)) [
  | inl h ↦ elim (Bool-cases (is_whole (length text))) [
    | inl w ↦ let (bytes, e, read) = decode_unsafe-total text h w in rw e (ground arith, read)
    | inr w ↦ rw (decode_unsafe-none text w) (ground arith)
  ]
  | inr h ↦ rw (decode_unsafe-others text h) (ground arith)
]

-- Where there is room for `base32_decoded_length` bytes, `base32_decode` succeeds just on letters of the
-- alphabet, in upper or lower case, of which 0, 2, 4, 5 or 7 are left behind groups of eight; it then
-- writes as many bytes as `base32_decoded_length` says. Any other text is refused.
pub base32_decode-accepted :
    (text : Bytes) (outlen : ℕ)
    → base32_decoded_length (length text) ≤ outlen
    → Outcome text (base32_decode text outlen)
unfolding base32_decode
base32_decode-accepted text outlen room =
    let test : ltb outlen (base32_decoded_length (length text)) ≡ false = ground arith in
    rw test (decode_unsafe-Outcome text)

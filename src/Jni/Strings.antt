-- ===== src/Jni/Strings.antt =====
-- Steps that read and make strings.
use chain_wallet.Common.{ℕ, ◌+◌, ◌≡◌, ◌≢◌, refl, some, [], ◌∷◌, ◌++◌, All, Bytes, length, arith}
use chain_wallet.Jni.Machine.{heap, Jvm, lookup, find_block}
use chain_wallet.Jni.Calls.{get_string_utf_chars, get_string_utf_length, new_string_utf, c_string}
use chain_wallet.Jni.Steps.{ready, block}

pub string_length_step :
    (r : ℕ) (t : Bytes) (s : Jvm)
    → lookup r s.strings ≡ some t
    → get_string_utf_length r (ready 0 s) ≡ some (length t, ready 0 s)
unfolding get_string_utf_length ready
string_length_step r t s h = ground arith

pub string_chars_step :
    (r : ℕ) (t : Bytes) (s : Jvm)
    → lookup r s.strings ≡ some t
    → get_string_utf_chars r (ready 0 s) ≡ some (t, ready 0 s)
unfolding get_string_utf_chars ready
string_chars_step r t s h = ground arith

-- A text without a NUL.
abbrev pub IsText : Bytes → Type 0
IsText = All (λ b. b ≢ 0)

abbrev pub with_string : Bytes → Jvm → Jvm
with_string t s = record s { strings = (s.next_ref, t) ∷ s.strings; next_ref = s.next_ref + 1 }

c_string-terminated : (t : Bytes) → IsText t → c_string (t ++ 0 ∷ []) ≡ some t
c_string-terminated [] h = refl
c_string-terminated (b ∷ t) (hb, h) = ground (arith, c_string-terminated t h)

pub new_string_step :
    (a a' : ℕ) (t : Bytes) (s : Jvm)
    → find_block a s.blocks ≡ some (block a' heap (t ++ 0 ∷ []))
    → IsText t
    → new_string_utf (some a) (ready 0 s) ≡ some (some s.next_ref, ready 0 (with_string t s))
unfolding new_string_utf ready
new_string_step a a' t s h text = ground (arith, c_string-terminated t text)

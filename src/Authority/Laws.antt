-- ===== src/Authority/Laws.antt =====
-- What valid.c and authority-lib.c decide, from the digest of the app's certificate.
use chain_wallet.Common.{
  ℕ, ◌<◌, ◌/◌, ◌%◌, ◌≡◌, ◌≢◌, refl, ◌∙◌, Bool, true, false, not, ◌&&◌, ◌||◌, Option, none, some,
  List, [], ◌∷◌, ◌++◌, Bytes, IsBytes, All, codes, get_elem?, length, leb, ◌==◌, if◌then◌else◌,
  arith, passes_under, passes_under-apply, finds, finds-eq,
}
use chain_wallet.Common.Chain.{◌>>=◌}
use chain_wallet.Hexstring.{hex_digit, hex_to_str}
use chain_wallet.Hexstring.RoundTrip.{spell, hex_to_str-spell}
use chain_wallet.Jni.Strings.{IsText}
use chain_wallet.Authority
use chain_wallet.Authority.{Android, hexcode, strcmp_equal, terminated, app_digests, auth_key}

hexcode_table : passes_under (λ d. finds (get_elem? hexcode d) (hex_digit 0 d)) 16 ≡ true
unfolding passes_under hex_digit
hexcode_table = refl

hexcode-hex_digit : (d : ℕ) → d < 16 → get_elem? hexcode d ≡ some (hex_digit 0 d)
hexcode-hex_digit d h = finds-eq _ _ (passes_under-apply _ 16 d h hexcode_table)

hex_pairs-spell : (bs : Bytes) → IsBytes bs → Authority.hex_pairs bs ≡ some (spell 0 bs)
unfolding Authority.hex_pairs
hex_pairs-spell [] h = refl
hex_pairs-spell (b ∷ bs) (hb, h) = rw (
  hexcode-hex_digit (b / 16) (omega arith),
  hexcode-hex_digit (b % 16) (omega arith),
  hex_pairs-spell bs h,
)

-- The text that `signatureSha1` makes of a digest is the one that `hexToStr` of hexstring.c makes
-- of it in upper case, where the certificate can be read.
pub signature_sha1-hex_to_str :
    (f : Android) (message certificate : Bytes)
    → f.encoded_certificate message ≡ some certificate
    → IsBytes (f.sha1 certificate)
    → Authority.signature_sha1 f (some message)
      ≡ hex_to_str (f.sha1 certificate) (length (f.sha1 certificate)) 0
unfolding Authority.signature_sha1
signature_sha1-hex_to_str f message certificate read h =
    rw (read, hex_pairs-spell (f.sha1 certificate) h, hex_to_str-spell (f.sha1 certificate) 0) refl

abbrev pub same_text : Bytes → Bytes → Bool
same_text [] [] = true
same_text [] (b ∷ t) = false
same_text (a ∷ s) [] = false
same_text (a ∷ s) (b ∷ t) = a == b && same_text s t

abbrev pub listed : Bytes → List Bytes → Bool
listed s [] = false
listed s (t ∷ ts) = same_text s t || listed s ts

strcmp_equal_lem :
    (s t : Bytes)
    → IsText s
    → IsText t
    → strcmp_equal (s ++ 0 ∷ []) (t ++ 0 ∷ []) ≡ some (same_text s t)
unfolding strcmp_equal
strcmp_equal_lem [] [] h k = refl
strcmp_equal_lem [] (b ∷ t) h (kb, k) = ground arith
strcmp_equal_lem (a ∷ s) [] (ha, h) k = ground arith
strcmp_equal_lem (a ∷ s) (b ∷ t) (ha, h) (kb, k) = rw (strcmp_equal_lem s t h k) (ground arith)

-- `checkValidity` says whether the text is one of the list's, all of them without a NUL inside, if
-- the size that it is given is the list's.
pub check_validity_lem :
    (s : Bytes) (ts : List Bytes)
    → IsText s
    → All IsText ts
    → Authority.check_validity (s ++ 0 ∷ []) (terminated ts) (length ts) ≡ some (listed s ts)
unfolding Authority.check_validity
check_validity_lem s [] h k = refl
check_validity_lem s (t ∷ ts) h (kt, k) =
    rw (strcmp_equal_lem s t h kt, check_validity_lem s ts h k) (ground arith)

key_of-not :
    (o : Option Bool)
    → (o >>= λ p. some (if not p then some auth_key else none)) ≡ (
        (o >>= λ p. some (if not p then false else true)) >>= λ valid.
        some (if valid then none else some auth_key))
key_of-not none = refl
key_of-not (some true) = refl
key_of-not (some false) = refl

-- `getAuthorityKey` gives the key exactly where `checkValidity` of the same class answers false, and
-- NULL where it answers true; where one of them does not return neither does the other.
pub get_authority_key_lem :
    (f : Android) (context : ℕ)
    → Authority.get_authority_key f context ≡ (
        Authority.authority_check_validity f context >>= λ valid.
        some (if valid then none else some auth_key))
unfolding Authority.get_authority_key Authority.authority_check_validity
get_authority_key_lem f context = key_of-not _

is_text : Bytes → Bool
is_text [] = true
is_text (b ∷ t) = not (b == 0) && is_text t

is_text-IsText : (t : Bytes) → is_text t ≡ true → IsText t
unfolding is_text
is_text-IsText [] h = tt
is_text-IsText (b ∷ t) h = (ground arith, is_text-IsText t (ground arith))

app_digests-IsText : All IsText app_digests
unfolding is_text
app_digests-IsText = (
  is_text-IsText (codes "9E08CE4C3F5D243197AFA53DD9E2255C825CAD3E") refl,
  (is_text-IsText (codes "81BA0CF9134C6415F34C3BCC854913A53C71415E") refl, tt),
)

hex_digit-positive : (d : ℕ) → hex_digit 0 d ≢ 0
unfolding hex_digit
hex_digit-positive d = ground arith

spell-IsText : (bs : Bytes) → IsText (spell 0 bs)
spell-IsText [] = tt
spell-IsText (b ∷ bs) =
    (hex_digit-positive (b / 16), (hex_digit-positive (b % 16), spell-IsText bs))

identity : (o : Option Bool) → (o >>= λ p. some (if not p then false else true)) ≡ o
identity none = refl
identity (some true) = refl
identity (some false) = refl

-- `AuthorityKey.checkValidity` answers whether the text of the certificate's digest, in upper case,
-- is one of the two in keys.c, where the reflection reaches a signature by the path of the
-- system's version and its certificate can be read.
pub authority_check_validity_lem :
    (f : Android) (context : ℕ) (message certificate : Bytes)
    → (if leb 28 (Authority.current_android_os_version f)
        then Authority.get_signature_sha1_by28 f context
        else Authority.get_signature_sha1_by1 f context)
      ≡ some (some message)
    → f.encoded_certificate message ≡ some certificate
    → IsBytes (f.sha1 certificate)
    → Authority.authority_check_validity f context
      ≡ some (listed (spell 0 (f.sha1 certificate)) app_digests)
unfolding Authority.authority_check_validity Authority.check_security_permission
    Authority.get_signature_sha1
authority_check_validity_lem f context message certificate reached read h =
    let digest = f.sha1 certificate in
    let text = spell 0 digest in
    identity _
    ∙ rw
        (reached, signature_sha1-hex_to_str f message certificate read h, hex_to_str-spell digest 0)
        (check_validity_lem text app_digests (spell-IsText digest) app_digests-IsText)

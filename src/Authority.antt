-- ===== src/Authority.antt =====
-- core/authority-ckeck/src/main/cpp: valid.c, keys.c and authority-lib.c, which compare the digest
-- of the app's certificate with a list of digests before they hand out a key. The Java objects that
-- are reached by reflection are a parameter; `none` in the outer option is a use of NULL that JNI
-- leaves undefined, in the inner one it is NULL. Local references, the log and the block of the
-- text (which nothing frees) are left out.
pub mod Laws
use chain_wallet.Common.{
  ℕ, zero, suc, ◌/◌, ◌%◌, Bool, true, false, not, Option, none, some, List, [], ◌∷◌, ◌++◌, Bytes,
  codes, get_elem?, leb, ◌==◌, if◌then◌else◌,
}
use chain_wallet.Common.Chain.{◌>>=◌}
use chain_wallet.Jni.Machine.{Ptr}

-- What the methods and fields of that name give; a number stands for an object.
pub record Android : Type 0 where
  pub sdk_property : Option Bytes
  pub atoi : Bytes → ℕ
  pub get_package_manager : ℕ → Ptr
  pub get_package_name : ℕ → Ptr
  pub get_package_info : ℕ → ℕ → ℕ → Ptr
  pub signatures : ℕ → Ptr
  pub signing_info : ℕ → Ptr
  pub get_apk_contents_signers : ℕ → Ptr
  pub first_element : ℕ → Ptr
  pub to_byte_array : ℕ → Option Bytes
  pub encoded_certificate : Bytes → Option Bytes
  pub sha1 : Bytes → Bytes

-- An early return of NULL.
abbrev unless_null : {A B : Type 0} → Option A → (A → Option (Option B)) → Option (Option B)
unless_null none k = some none
unless_null (some a) k = k a

unfoldable pub current_android_os_version : Android → ℕ
current_android_os_version f = elim f.sdk_property [ none ↦ 0 | some text ↦ f.atoi text ]

-- The bytes of the first of the signatures, whose array must have one.
unfoldable pub first_signature : Android → ℕ → Option (Option Bytes)
first_signature f signatures = do
  signature ← f.first_element signatures
  some (f.to_byte_array signature)

unfoldable pub get_signature_sha1_by1 : Android → ℕ → Option (Option Bytes)
get_signature_sha1_by1 f context = unless_null (f.get_package_manager context) λ manager.
    unless_null (f.get_package_name context) λ name.
      unless_null (f.get_package_info manager name 0x40)
        λ info. unless_null (f.signatures info) λ signatures. first_signature f signatures

unfoldable pub get_signature_sha1_by28 : Android → ℕ → Option (Option Bytes)
get_signature_sha1_by28 f context = unless_null (f.get_package_manager context) λ manager.
    unless_null (f.get_package_name context) λ name.
      unless_null (f.get_package_info manager name 0x08000000) λ info.
        unless_null (f.signing_info info) λ signing.
          unless_null (f.get_apk_contents_signers signing)
            λ signatures. first_signature f signatures

abbrev pub hexcode : Bytes
hexcode = codes "0123456789ABCDEF"

unfoldable pub hex_pairs : Bytes → Option Bytes
hex_pairs [] = some []
hex_pairs (b ∷ bs) = do
  high ← get_elem? hexcode (b / 16)
  low ← get_elem? hexcode (b % 16)
  rest ← hex_pairs bs
  some (high ∷ low ∷ rest)

-- A stream over NULL cannot be made, and nothing tests for what comes of it.
unfoldable pub signature_sha1 : Android → Option Bytes → Option Bytes
signature_sha1 f message = do
  bytes ← message
  certificate ← f.encoded_certificate bytes
  text ← hex_pairs (f.sha1 certificate)
  some (text ++ 0 ∷ [])

unfoldable pub get_signature_sha1 : Android → ℕ → Option Bytes
get_signature_sha1 f context = do
  bytes ←
      if leb 28 (current_android_os_version f)
      then get_signature_sha1_by28 f context
      else get_signature_sha1_by1 f context
  signature_sha1 f bytes

-- `strcmp(s, t) == 0` of the C library: equal up to the first NUL, and a fault without one.
pub strcmp_equal : Bytes → Bytes → Option Bool
strcmp_equal [] t = none
strcmp_equal (a ∷ s) [] = none
strcmp_equal (a ∷ s) (b ∷ t) =
    let rest = strcmp_equal s t in
    if a == b then (if a == 0 then some true else rest) else some false

-- The loop over the first `size` of the texts.
unfoldable pub check_validity : Bytes → List Bytes → ℕ → Option Bool
check_validity sha1 app_sha1 zero = some false
check_validity sha1 [] (suc n) = none
check_validity sha1 (current ∷ app_sha1) (suc n) = do
  same ← strcmp_equal sha1 current
  if same then some true else check_validity sha1 app_sha1 n

unfoldable pub check_security_permission : Android → ℕ → List Bytes → ℕ → Option Bool
check_security_permission f context app_sha1 size = do
  sha1 ← get_signature_sha1 f context
  check_validity sha1 app_sha1 size

-- The two digests, without the NUL of each.
abbrev pub app_digests : List Bytes
app_digests =
    codes "9E08CE4C3F5D243197AFA53DD9E2255C825CAD3E"
    ∷ codes "81BA0CF9134C6415F34C3BCC854913A53C71415E"
    ∷ []

abbrev pub terminated : List Bytes → List Bytes
terminated [] = []
terminated (t ∷ ts) = (t ++ 0 ∷ []) ∷ terminated ts

abbrev pub auth_app_sha1 : List Bytes
auth_app_sha1 = terminated app_digests

abbrev pub auth_app_sha1_size : ℕ
auth_app_sha1_size = 2

-- `AuthorityKey.checkValidity`
unfoldable pub authority_check_validity : Android → ℕ → Option Bool
authority_check_validity f context = do
  permitted ← check_security_permission f context auth_app_sha1 auth_app_sha1_size
  some (if not permitted then false else true)

abbrev pub auth_key : Bytes
auth_key = codes "52b73ab424543efd39276bad6e721693"

-- `AuthorityKey.getAuthorityKey`; `NewStringUTF` of NULL is NULL.
unfoldable pub get_authority_key : Android → ℕ → Option (Option Bytes)
get_authority_key f context = do
  permitted ← check_security_permission f context auth_app_sha1 auth_app_sha1_size
  let result = not permitted
  some (if result then some auth_key else none)

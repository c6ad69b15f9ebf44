-- ===== src/CryptoJni/MovesDigests.antt =====
-- The wrappers of crypto-wrapper.c for digests, codes and derived keys leave as many critical regions open
-- as they find; those that take over one array make no JNI call inside a region.
use chain_wallet.Common.{ℕ, Bool, false, Bytes}
use chain_wallet.Jni.Machine.{Ptr}
use chain_wallet.Jni.Moves.{Allowed, anywhere, Moves, still, Moves-held, Moves-bind, Moves-option}
use chain_wallet.Jni.MovesCalls.{moves_rules, critical_array_to_c-Moves, calloc-Moves, read-Moves}
use chain_wallet.Primitives.{Primitives}
use chain_wallet.CryptoJni.Digests
use chain_wallet.CryptoJni.Keyed
use chain_wallet.CryptoJni.Blake

pub return_bytes-Moves :
    {calm : Bool} {i : ℕ} (ok : Allowed calm i) (n : ℕ) (p : Ptr)
    → Moves calm i (still i) (Digests.return_bytes n p)
unfolding Digests.return_bytes
return_bytes-Moves ok n p = search moves_rules depth 60 fits 4000

pub leak_bytes-Moves :
    {calm : Bool} {i : ℕ} (ok : Allowed calm i) (n : ℕ) (p : Ptr)
    → Moves calm i (still i) (Digests.leak_bytes n p)
unfolding Digests.leak_bytes
leak_bytes-Moves ok n p = search moves_rules depth 60 fits 4000

pub ruleset bytes_moves = (return_bytes-Moves, leak_bytes-Moves, moves_rules)

pub copy_digest-Moves :
    {calm : Bool} {i : ℕ} (ok : Allowed calm i) (n : ℕ) (f : Bytes → Bytes) (r : ℕ)
    → Moves calm i (still i) (Digests.copy_digest n f r)
unfolding Digests.copy_digest
copy_digest-Moves ok n f r = search bytes_moves depth 60 fits 4000

pub critical_digest-Moves :
    {calm : Bool} {i : ℕ} (ok : Allowed calm i) (n : ℕ) (f : Bytes → Bytes) (r : ℕ)
    → Moves calm i (still i) (Digests.critical_digest n f r)
unfolding Digests.critical_digest
critical_digest-Moves ok n f r = search bytes_moves depth 60 fits 4000

pub copy_double_digest-Moves :
    {calm : Bool} {i : ℕ} (ok : Allowed calm i) (n : ℕ) (f : Bytes → Bytes) (r : ℕ)
    → Moves calm i (still i) (Digests.copy_double_digest n f r)
unfolding Digests.copy_double_digest
copy_double_digest-Moves ok n f r = search bytes_moves depth 60 fits 4000

pub critical_double_digest-Moves :
    {calm : Bool} {i : ℕ} (ok : Allowed calm i) (n : ℕ) (f : Bytes → Bytes) (r : ℕ)
    → Moves calm i (still i) (Digests.critical_double_digest n f r)
unfolding Digests.critical_double_digest
critical_double_digest-Moves ok n f r = search bytes_moves depth 60 fits 4000

pub ripemd160-Moves :
    {calm : Bool} {i : ℕ} (ok : Allowed calm i) (c : Primitives) (r : ℕ)
    → Moves calm i (still i) (Digests.ripemd160 c r)
unfolding Digests.ripemd160
ripemd160-Moves ok c r = search bytes_moves depth 60 fits 4000

pub hmac-Moves :
    {i : ℕ} (n : ℕ) (f : Bytes → Bytes → Bytes) (k m : ℕ)
    → Moves false i (still i) (Keyed.hmac n f k m)
unfolding Keyed.hmac
hmac-Moves n f k m = search (anywhere, bytes_moves) depth 60 fits 4000

derive-Moves :
    {calm : Bool} {i : ℕ} (ok : Allowed calm i) (f : Bytes → Bytes → ℕ → ℕ → Bytes) (r q j n : ℕ)
    (p : Ptr) (a : ℕ) (t : Ptr) (b : ℕ)
    → Moves calm i (still i) (Keyed.derive f r q j n p a t b)
unfolding Keyed.derive
derive-Moves ok f r q j n p a t b = search bytes_moves depth 60 fits 4000

pub pbkdf2-Moves :
    {calm : Bool} {i : ℕ} (ok : Allowed calm i) (f : Bytes → Bytes → ℕ → ℕ → Bytes) (r q j n : ℕ)
    → Moves calm i (still i) (Keyed.pbkdf2 f r q j n)
unfolding Keyed.pbkdf2
pbkdf2-Moves ok f r q j n = search (derive-Moves, bytes_moves) depth 60 fits 4000

pub checked_bytes-Moves :
    {calm : Bool} {i : ℕ} (ok : Allowed calm i) (n : ℕ) (p : Ptr)
    → Moves calm i (still i) (Blake.checked_bytes n p)
unfolding Blake.checked_bytes
checked_bytes-Moves ok n p = search bytes_moves depth 60 fits 4000

pub blake_256-Moves :
    {calm : Bool} {i : ℕ} (ok : Allowed calm i) (c : Primitives) (r : ℕ)
    → Moves calm i (still i) (Blake.blake_256 c r)
unfolding Blake.blake_256
blake_256-Moves ok c r = search (checked_bytes-Moves, bytes_moves) depth 60 fits 4000

pub blake2b-Moves :
    {calm : Bool} {i : ℕ} (ok : Allowed calm i) (c : Primitives) (r n : ℕ)
    → Moves calm i (still i) (Blake.blake2b c r n)
unfolding Blake.blake2b
blake2b-Moves ok c r n =
    Moves-held _ _ (critical_array_to_c-Moves r ok) (λ l. search bytes_moves depth 60 fits 4000)
      λ a l. Moves-bind _ _ (calloc-Moves n) λ p. Moves-bind _ _ (read-Moves _ _) λ m.
        Moves-option (Blake.given p (c.blake2b m n)) _ _ (search bytes_moves depth 60 fits 4000)
          λ h. search (checked_bytes-Moves, bytes_moves) depth 60 fits 4000

pub blake2b_with_key-Moves :
    {i : ℕ} (c : Primitives) (r q n : ℕ) → Moves false i (still i) (Blake.blake2b_with_key c r q n)
unfolding Blake.blake2b_with_key
blake2b_with_key-Moves c r q n =
    Moves-held _ _ (critical_array_to_c-Moves r (anywhere _))
      (λ l. search (anywhere, bytes_moves) depth 60 fits 4000)
      λ a l.
        Moves-held _ _ (critical_array_to_c-Moves q (anywhere _))
          (λ l. search (anywhere, bytes_moves) depth 60 fits 4000)
          λ b l. Moves-bind _ _ (calloc-Moves n) λ p. Moves-bind _ _ (read-Moves _ _) λ m.
            Moves-bind _ _ (read-Moves _ _) λ t.
              Moves-option (Blake.given p (c.blake2b_key m t n)) _ _
                (search (anywhere, bytes_moves) depth 60 fits 4000)
                λ h. search (anywhere, checked_bytes-Moves, bytes_moves) depth 60 fits 4000

pub blake2s_with_key-Moves :
    {i : ℕ} (c : Primitives) (r q n : ℕ) → Moves false i (still i) (Blake.blake2s_with_key c r q n)
unfolding Blake.blake2s_with_key
blake2s_with_key-Moves c r q n =
    Moves-held _ _ (critical_array_to_c-Moves r (anywhere _))
      (λ l. search (anywhere, bytes_moves) depth 60 fits 4000)
      λ a l.
        Moves-held _ _ (critical_array_to_c-Moves q (anywhere _))
          (λ l. search (anywhere, bytes_moves) depth 60 fits 4000)
          λ b l. Moves-bind _ _ (calloc-Moves n) λ p. Moves-bind _ _ (read-Moves _ _) λ m.
            Moves-bind _ _ (read-Moves _ _) λ t.
              Moves-option (Blake.given p (c.blake2s_key m t n)) _ _
                (search (anywhere, bytes_moves) depth 60 fits 4000)
                λ h. search (anywhere, checked_bytes-Moves, bytes_moves) depth 60 fits 4000

-- ===== src/CryptoJni/FollowsDigests.antt =====
-- The digest and keyed wrappers of crypto-wrapper.c under refused memory.
use chain_wallet.Common.{ℕ, Bytes}
use chain_wallet.Jni.Machine.{Ptr}
use chain_wallet.Jni.Follows.{Follows, IsMissing}
use chain_wallet.Jni.FollowsMethod.{follows_rules}
use chain_wallet.Primitives.{Primitives}
use chain_wallet.CryptoJni.Digests
use chain_wallet.CryptoJni.Keyed

pub return_bytes-Follows :
    {P : Ptr → Type 0} (n : ℕ) (p : Ptr) → Follows P (Digests.return_bytes n p)
unfolding Digests.return_bytes
return_bytes-Follows n p = search follows_rules depth 60 fits 4000

pub leak_bytes-Follows : {P : Ptr → Type 0} (n : ℕ) (p : Ptr) → Follows P (Digests.leak_bytes n p)
unfolding Digests.leak_bytes
leak_bytes-Follows n p = search follows_rules depth 60 fits 4000

pub ruleset bytes_follows = (return_bytes-Follows, leak_bytes-Follows, follows_rules)

pub copy_digest-Follows :
    (n : ℕ) (f : Bytes → Bytes) (r : ℕ) → Follows IsMissing (Digests.copy_digest n f r)
unfolding Digests.copy_digest
copy_digest-Follows n f r = search bytes_follows depth 60 fits 4000

pub critical_digest-Follows :
    (n : ℕ) (f : Bytes → Bytes) (r : ℕ) → Follows IsMissing (Digests.critical_digest n f r)
unfolding Digests.critical_digest
critical_digest-Follows n f r = search bytes_follows depth 60 fits 4000

pub copy_double_digest-Follows :
    (n : ℕ) (f : Bytes → Bytes) (r : ℕ) → Follows IsMissing (Digests.copy_double_digest n f r)
unfolding Digests.copy_double_digest
copy_double_digest-Follows n f r = search bytes_follows depth 60 fits 4000

pub critical_double_digest-Follows :
    (n : ℕ) (f : Bytes → Bytes) (r : ℕ) → Follows IsMissing (Digests.critical_double_digest n f r)
unfolding Digests.critical_double_digest
critical_double_digest-Follows n f r = search bytes_follows depth 60 fits 4000

pub ripemd160-Follows : (c : Primitives) (r : ℕ) → Follows IsMissing (Digests.ripemd160 c r)
unfolding Digests.ripemd160
ripemd160-Follows c r = search bytes_follows depth 60 fits 4000

pub hmac-Follows :
    (n : ℕ) (f : Bytes → Bytes → Bytes) (k m : ℕ) → Follows IsMissing (Keyed.hmac n f k m)
unfolding Keyed.hmac
hmac-Follows n f k m = search bytes_follows depth 60 fits 4000

derive-Follows :
    (f : Bytes → Bytes → ℕ → ℕ → Bytes) (r q i n : ℕ) (p : Ptr) (a : ℕ) (t : Ptr) (b : ℕ)
    → Follows IsMissing (Keyed.derive f r q i n p a t b)
unfolding Keyed.derive
derive-Follows f r q i n p a t b = search bytes_follows depth 60 fits 4000

pub pbkdf2-Follows :
    (f : Bytes → Bytes → ℕ → ℕ → Bytes) (r q i n : ℕ) → Follows IsMissing (Keyed.pbkdf2 f r q i n)
unfolding Keyed.pbkdf2
pbkdf2-Follows f r q i n = search (derive-Follows, bytes_follows) depth 60 fits 4000

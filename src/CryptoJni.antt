-- ===== src/CryptoJni.antt =====
-- crypto/core/src/main/cpp/crypto-wrapper.c: the functions of `CryptoJNI`.
pub mod Parts
pub mod TextLaws
pub mod Base32Laws
pub mod Unchecked
pub mod DerLaws
pub mod CheckLaws
pub mod CheckRoundTrip
pub mod KeptCodecs
pub mod KeptBlake
pub mod KeptKeyed
pub mod Digests
pub mod DigestLaws
pub mod DigestTable
pub mod Blake
pub mod Keyed
pub mod KeyedLaws
pub mod BlakeLaws
pub mod BlakeKeyLaws
pub mod Ripemd
pub mod Codecs
pub mod HexLaws
pub mod Base58Laws
pub mod FollowsDigests
pub mod FollowsBlake
pub mod FollowsCodecs
pub mod MovesDigests
pub mod MovesBlake2s
pub mod MovesCodecs
pub mod KeptDigests

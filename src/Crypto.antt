-- ===== src/Crypto.antt =====
-- crypto/: the primitives under the protocol.
pub mod Huffman
pub mod Sha1
pub mod HmacSha256
pub mod Hkdf
pub mod Covenant

-- ===== src/Crypto.antt =====
-- The cryptographic code below the two clients (src/crypto).
pub mod Cipher
pub mod Siv
pub mod Sha3
pub mod Keccak
pub mod Aes
pub mod Xed25519

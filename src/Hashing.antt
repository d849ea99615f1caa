-- ===== src/Hashing.antt =====
-- crypt/hashing/argon2id.go: password hashes, and the formats of Go's library in which they stand.
pub mod Base64
pub mod Scan
pub mod Argon2id
pub mod Rehash
pub mod Verify

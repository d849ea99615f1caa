-- ===== src/Hashing/Rehash.antt =====
-- When `Argon2IdNeedsRehash` of crypt/hashing/argon2id.go asks for a new hash.

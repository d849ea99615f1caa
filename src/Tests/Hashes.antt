-- ===== src/Tests/Hashes.antt =====
-- The password hashes of crypt/hashing/argon2id.go, on a toy source of randomness and of keys.
use blueprint.Prelude.{
  some, ℕ, zero, suc, ◌+◌, ◌%◌, ◌<◌, [], ◌∷◌, Bytes, codes, bytes_eq, length, true, ◌≡◌, refl, ap,
  arith,
}
use blueprint.Errors.{ok, err_invalid_hash, Result}
use blueprint.Hashing.Base64.{AreBytes}
use blueprint.Hashing.Argon2id.{
  Crypto, Argon2Config, key_of, hash_text, argon2_id_create_hash, argon2_id_decode_hash,
  argon2_id_compare_password, generate_random_bytes,
}
use blueprint.Hashing.Verify.{IsCrypto, Fits, compare_password-create_hash}

abbrev fill : ℕ → ℕ → Bytes
fill zero c = []
fill (suc n) c = c ∷ fill n c

length-fill : (n c : ℕ) → length (fill n c) ≡ n
length-fill zero c = refl
length-fill (suc n) c = ap suc (length-fill n c)

fill-AreBytes : (n c : ℕ) → c < 256 → AreBytes (fill n c)
fill-AreBytes zero c h = tt
fill-AreBytes (suc n) c h = (h, fill-AreBytes n c h)

-- The source counts its calls, and a key repeats the length of the password.
abbrev toy_crypto : Crypto ℕ
toy_crypto = record {
  rand_read = λ n s. (ok (fill n 7), s + 1);
  id_key = λ password salt t m p n. fill n (length password % 256);
  version = 19;
  scan_error = err_invalid_hash;
  corrupt_input_error = err_invalid_hash;
}

toy_salt :
    (n : ℕ) (salt : Bytes)
    → ◌≡◌ {A = Result Bytes} (ok (fill n 7)) (ok salt)
    → (length salt ≡ n) × AreBytes salt
toy_salt n salt e = ground (arith, length-fill n 7, fill-AreBytes n 7 (omega arith))

toy_crypto-IsCrypto : IsCrypto toy_crypto
toy_crypto-IsCrypto = record {
  salt_bytes = λ n s salt e. toy_salt n salt e;
  key_bytes = λ password salt t m p n. (
    length-fill n (length password % 256),
    fill-AreBytes n (length password % 256) (omega arith),
  );
  version_lt = omega arith;
}

abbrev config : Argon2Config
config = record { memory = 8; iterations = 1; parallelism = 1; salt_length = 3; key_length = 2 }

config-Fits : Fits config
config-Fits = record {
  memory_lt = omega arith;
  iterations_lt = omega arith;
  parallelism_lt = omega arith;
  salt_length_lt = omega arith;
  key_length_lt = omega arith;
}

abbrev password : Bytes
password = codes "pass"

-- "$argon2id$v=19$m=8,t=1,p=1$BwcH$BAQ"
abbrev hash : Bytes
hash = hash_text toy_crypto config (fill 3 7) (fill 2 4)

hash_created : argon2_id_create_hash toy_crypto password config 0 ≡ some (ok hash, 1)
unfolding argon2_id_create_hash generate_random_bytes
hash_created = refl

compare_password-create_hash_example :
    (salt : Bytes) × (length salt ≡ 3)
    × (argon2_id_decode_hash toy_crypto hash
        ≡ ok (config, salt, key_of toy_crypto password salt config))
    × ((other : Bytes)
        → argon2_id_compare_password toy_crypto other hash
          ≡ some (
              ok (
                bytes_eq
                    (key_of toy_crypto password salt config)
                    (key_of toy_crypto other salt config),
                config,
              )))
    × (argon2_id_compare_password toy_crypto password hash ≡ some (ok (true, config)))
compare_password-create_hash_example =
    compare_password-create_hash toy_crypto toy_crypto-IsCrypto password hash config 0 1 config-Fits
      hash_created

-- ===== src/Hashing/Verify.antt =====
-- What crypt/hashing/argon2id.go reads back from the hashes that it creates.
use mathlib.Core.List.{append_assoc, append-nil}
use blueprint.Prelude.{
  none, if◌then◌else◌, inr, inl, Bool-cases, ℕ, ◌^◌, ◌<◌, ◌==◌, true, false, some, List, [], ◌∷◌,
  ◌++◌, Bytes, All, codes, bytes_eq, bytes_eq_refl, length, pos, ◌≡◌, refl, sym, ap, ◌∙◌, arith,
}
use blueprint.Errors.{Result, ok, err}
use blueprint.Config.Text.{split}
use blueprint.Config.Text.Split.{join, split-join, Without}
use blueprint.Hashing.Base64.{encode, decode-encode, encode_without, AreBytes}
use blueprint.Hashing.Scan.{
  show, scan_uint, scan_literal, scan_uint-show, scan_int-show, show_without, All-append,
}
use blueprint.Hashing.Argon2id.{
  key_panics, hash_with, Crypto, Argon2Config, Costs, scan_version, scan_costs, hash_text, key_of,
  config_of, decode_fields, decode_tokens, argon2_id_decode_hash, argon2_id_compare_password,
  argon2_id_create_hash, generate_random_bytes, same_key, compared,
}

-- The random source fills the bytes that it is asked for, and a key has the length that it is asked
-- for.
pub record IsCrypto {ℓ} {S : Type ℓ} (os : Crypto S) : Type ℓ where
  pub salt_bytes :
      (n : ℕ) (s : S) (salt : Bytes)
      → (os.rand_read n s).0 ≡ ok salt
      → (length salt ≡ n) × AreBytes salt
  pub key_bytes :
      (password salt : Bytes) (t m p n : ℕ)
      → (length (os.id_key password salt t m p n) ≡ n) × AreBytes (os.id_key password salt t m p n)
  pub version_lt : os.version < 2 ^ 63

-- The widths of the fields of the Go structure.
pub record Fits (c : Argon2Config) : Type 0 where
  pub memory_lt : c.memory < 2 ^ 32
  pub iterations_lt : c.iterations < 2 ^ 32
  pub parallelism_lt : c.parallelism < 2 ^ 8
  pub salt_length_lt : c.salt_length < 2 ^ 32
  pub key_length_lt : c.key_length < 2 ^ 32

abbrev costs_text : Argon2Config → Bytes
costs_text c =
    codes "m="
    ++ (show c.memory
        ++ (codes ",t=" ++ (show c.iterations ++ (codes ",p=" ++ show c.parallelism))))

abbrev costs : Argon2Config → Costs
costs c = record { m = c.memory; t = c.iterations; p = c.parallelism }

scan_uint-show_all : (limit n : ℕ) → n < limit → scan_uint limit (show n) ≡ some (n, [])
scan_uint-show_all limit n h = rw (append-nil (show n)) at (scan_uint-show limit n [] h refl)

scan_costs_lem : (c : Argon2Config) → Fits c → scan_costs (costs_text c) ≡ some (costs c)
unfolding scan_costs scan_literal
scan_costs_lem c h =
    rw
      (
        scan_uint-show (2 ^ 32) c.memory
            (codes ",t=" ++ (show c.iterations ++ (codes ",p=" ++ show c.parallelism))) h.memory_lt
            refl,
        scan_uint-show (2 ^ 32) c.iterations (codes ",p=" ++ show c.parallelism) h.iterations_lt
            refl,
        scan_uint-show_all (2 ^ 8) c.parallelism h.parallelism_lt,
      )
      refl

costs_text-Without : (c : Argon2Config) → Without b'$' (costs_text c)
costs_text-Without c = ground (
  arith,
  All-append (λ c. (c == b'$') ≡ false) (show c.memory)
      (codes ",t=" ++ (show c.iterations ++ (codes ",p=" ++ show c.parallelism)))
      (show_without c.memory),
  All-append (λ c. (c == b'$') ≡ false) (show c.iterations) (codes ",p=" ++ show c.parallelism)
      (show_without c.iterations),
  show_without c.parallelism,
)

module _ {ℓ} {S : Type ℓ} (os : Crypto S) (law : IsCrypto os) where
  -- The tokens of a hash text after the first one, which is empty.
  abbrev filled : Argon2Config → Bytes → Bytes → List Bytes
  filled c salt key =
      codes "argon2id"
      ∷ (codes "v=" ++ show os.version)
      ∷ costs_text c
      ∷ encode salt
      ∷ encode key
      ∷ []

  abbrev tokens : Argon2Config → Bytes → Bytes → List Bytes
  tokens c salt key = [] ∷ filled c salt key

  hash_text-join :
      (c : Argon2Config) (salt key : Bytes)
      → hash_text os c salt key ≡ join b'$' (tokens c salt key)
  unfolding hash_text
  hash_text-join c salt key = simp append_assoc

  tokens-Without :
      (c : Argon2Config) (salt key : Bytes)
      → AreBytes salt
      → AreBytes key
      → All (Without b'$') (tokens c salt key)
  tokens-Without c salt key hs hk = ground (
    arith,
    costs_text-Without c,
    show_without os.version,
    encode_without salt hs,
    encode_without key hk,
  )

  scan_version_lem : scan_version (codes "v=" ++ show os.version) ≡ some (pos os.version, [])
  unfolding scan_version scan_literal
  scan_version_lem =
      rw (append-nil (show os.version)) at (scan_int-show os.version [] law.version_lt refl)

  decode_fields_lem :
      (c : Argon2Config) (salt key : Bytes)
      → Fits c
      → AreBytes salt
      → AreBytes key
      → decode_fields os (codes "v=" ++ show os.version) (costs_text c) (encode salt) (encode key)
        ≡ ok (config_of os (costs c) salt key, salt, key)
  unfolding decode_fields
  decode_fields_lem c salt key h hs hk =
      rw (scan_version_lem, scan_costs_lem c h, decode-encode salt hs, decode-encode key hk)
        (ground arith)

  -- What the text of a hash is decoded to.
  decode_hash-hash_text :
      (c : Argon2Config) (salt key : Bytes)
      → Fits c
      → AreBytes salt
      → AreBytes key
      → argon2_id_decode_hash os (hash_text os c salt key)
        ≡ ok (config_of os (costs c) salt key, salt, key)
  unfolding argon2_id_decode_hash decode_tokens bytes_eq
  decode_hash-hash_text c salt key h hs hk =
      ap (decode_tokens os) (
        ap (split b'$') (hash_text-join c salt key)
        ∙ split-join b'$' [] (filled c salt key) (tokens-Without c salt key hs hk))
      ∙ decode_fields_lem c salt key h hs hk

  config_of-eq :
      (c : Argon2Config) (salt key : Bytes)
      → Fits c
      → length salt ≡ c.salt_length
      → length key ≡ c.key_length
      → config_of os (costs c) salt key ≡ c
  config_of-eq c salt key h e k = ground arith

  created :
      (password h : Bytes) (c : Argon2Config) (r : Result Bytes × S) (t : S)
      → hash_with os password c r ≡ some (ok h, t)
      → (salt : Bytes) × (r.0 ≡ ok salt)
        × (hash_text os c salt (key_of os password salt c) ≡ h)
        × (key_panics os c ≡ false)
  created password h c (err e, s) t made = ground arith
  created password h c (ok salt, s) t made = elim (Bool-cases (key_panics os c)) [
    | inl p ↦ absurd (ground (arith, made, p))
    | inr p ↦ (salt, refl, ground (arith, made, p), p)
  ]

  same_key-bytes_eq :
      (c : Argon2Config) (password other salt : Bytes)
      → same_key os (key_of os password salt c) (key_of os other salt c)
        ≡ bytes_eq (key_of os password salt c) (key_of os other salt c)
  same_key-bytes_eq c password other salt = ground (
    arith,
    law.key_bytes password salt c.iterations c.memory c.parallelism c.key_length,
    law.key_bytes other salt c.iterations c.memory c.parallelism c.key_length,
  )

  compare_password-decoded :
      (password other h salt : Bytes) (c : Argon2Config)
      → argon2_id_decode_hash os h ≡ ok (c, salt, key_of os password salt c)
      → key_panics os c ≡ false
      → argon2_id_compare_password os other h
        ≡ some (ok (bytes_eq (key_of os password salt c) (key_of os other salt c), c))
  unfolding argon2_id_compare_password
  compare_password-decoded password other h salt c e fine =
      ap (compared os other) e
      ∙ ap
          (λ b.
            if b
            then none
            else some (ok (same_key os (key_of os password salt c) (key_of os other salt c), c)))
          fine
      ∙ ap (λ b. some (ok (b, c))) (same_key-bytes_eq c password other salt)

  -- With a random source that fills the salt and keys of the length asked for, a hash that was
  -- created decodes to the configuration, the salt and the key that it was created with. Comparing
  -- any password with it answers whether that password has the same key under that salt, with the
  -- configuration; so the password that was hashed compares as equal.
  pub compare_password-create_hash :
      (password h : Bytes) (c : Argon2Config) (s t : S)
      → Fits c
      → argon2_id_create_hash os password c s ≡ some (ok h, t)
      → (salt : Bytes) × (length salt ≡ c.salt_length)
        × (argon2_id_decode_hash os h ≡ ok (c, salt, key_of os password salt c))
        × ((other : Bytes)
            → argon2_id_compare_password os other h
              ≡ some (ok (bytes_eq (key_of os password salt c) (key_of os other salt c), c)))
        × (argon2_id_compare_password os password h ≡ some (ok (true, c)))
  unfolding argon2_id_create_hash generate_random_bytes
  compare_password-create_hash password h c s t fits made =
      let (salt, read, text, fine) = created password h c (os.rand_read c.salt_length s) t made in
      let (n, are_bytes) = law.salt_bytes c.salt_length s salt read in
      let (k, key_are_bytes) =
        law.key_bytes password salt c.iterations c.memory c.parallelism c.key_length in
      let key : Bytes = key_of os password salt c in
      let decodes : argon2_id_decode_hash os h ≡ ok (c, salt, key_of os password salt c) =
        ap (argon2_id_decode_hash os) (sym text)
        ∙ decode_hash-hash_text c salt key fits are_bytes key_are_bytes
        ∙ ap (λ d. ok (d, salt, key)) (config_of-eq c salt key fits n k) in
      (
        salt,
        n,
        decodes,
        λ other. compare_password-decoded password other h salt c decodes fine,
        compare_password-decoded password password h salt c decodes fine
            ∙ ap (λ b. some (ok (b, c))) (bytes_eq_refl key),
      )

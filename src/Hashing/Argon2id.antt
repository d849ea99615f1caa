-- ===== src/Hashing/Argon2id.antt =====
-- crypt/hashing/argon2id.go, and utils/bytes.go for the salt. crypto/rand,
-- golang.org/x/crypto/argon2 and the errors of fmt and encoding/base64 are the parameter `Crypto`,
-- over a state `S` that the random source draws from. A result with several values is a tuple under
-- `ok`.
use blueprint.Prelude.{
  ℕ, ◌%◌, ◌^◌, ◌==◌, if◌then◌else◌, Bool, not, ◌&&◌, ◌||◌, Option, none, some, List, [], ◌∷◌, ◌++◌,
  Bytes, codes, bytes_eq, length, ℤ, pos, negsuc,
}
use blueprint.Errors.{Error, Result, ok, err, and_then, err_invalid_hash, err_incompatible_version}
use blueprint.Config.Text.{split}
use blueprint.Hashing.Base64.{encode, decode}
use blueprint.Hashing.Scan.{show, scan_int, scan_uint, scan_literal}

pub record Crypto {ℓ} (S : Type ℓ) : Type ℓ where
  -- rand.Read into that many bytes
  pub rand_read : ℕ → S → Result Bytes × S
  -- IDKey of a password, a salt, the iterations, the memory, the parallelism and the key length
  pub id_key : Bytes → Bytes → ℕ → ℕ → ℕ → ℕ → Bytes
  pub version : ℕ
  pub scan_error : Error
  pub corrupt_input_error : Error

pub record Argon2Config : Type 0 where
  pub memory : ℕ
  pub iterations : ℕ
  pub parallelism : ℕ
  pub salt_length : ℕ
  pub key_length : ℕ

unfoldable pub new_argon2_id_config : Argon2Config
new_argon2_id_config = record {
  memory = 65536;
  iterations = 4;
  parallelism = 2;
  salt_length = 16;
  key_length = 32;
}

unfoldable pub argon2_id_needs_rehash : Argon2Config → Bool
unfolding new_argon2_id_config
argon2_id_needs_rehash c =
    let cfg : Argon2Config = new_argon2_id_config in
    not (c.memory == cfg.memory)
    || not (c.iterations == cfg.iterations)
    || not (c.parallelism == cfg.parallelism)
    || not (c.salt_length == cfg.salt_length)
    || not (c.key_length == cfg.key_length)

-- What the three numbers m, t and p are read into.
pub record Costs : Type 0 where
  pub m : ℕ
  pub t : ℕ
  pub p : ℕ

abbrev pub scan_then {ℓ} : {B : Type ℓ} → Option (ℕ × Bytes) → (ℕ → Bytes → Option B) → Option B
scan_then none f = none
scan_then (some (n, s)) f = f n s

abbrev pub literal_then {ℓ} : {B : Type ℓ} → Option Bytes → (Bytes → Option B) → Option B
literal_then none f = none
literal_then (some s) f = f s

-- Sscanf(s, "v=%d", &version); what follows the number is not looked at.
unfoldable pub scan_version : Bytes → Option (ℤ × Bytes)
scan_version s = literal_then (scan_literal (codes "v=") s) scan_int

-- Sscanf(s, "m=%d,t=%d,p=%d", ...) into two uint32 and a uint8
unfoldable pub scan_costs : Bytes → Option Costs
scan_costs s = literal_then (scan_literal (codes "m=") s) λ s1.
    scan_then (scan_uint (2 ^ 32) s1) λ m s2. literal_then (scan_literal (codes ",t=") s2) λ s3.
      scan_then (scan_uint (2 ^ 32) s3) λ t s4.
        literal_then (scan_literal (codes ",p=") s4)
          λ s5. scan_then (scan_uint (2 ^ 8) s5) λ p s6. some (record { m = m; t = t; p = p })

module _ {ℓ} {S : Type ℓ} (os : Crypto S) where
  unfoldable pub generate_random_bytes : ℕ → S → Result Bytes × S
  generate_random_bytes n s = os.rand_read n s

  abbrev pub key_of : Bytes → Bytes → Argon2Config → Bytes
  key_of password salt c = os.id_key password salt c.iterations c.memory c.parallelism c.key_length

  -- IDKey panics on no iterations, no parallelism or an empty key.
  abbrev pub key_panics : Argon2Config → Bool
  key_panics c = c.iterations == 0 || c.parallelism == 0 || c.key_length == 0

  -- Sprintf("$argon2id$v=%d$m=%d,t=%d,p=%d$%s$%s", ...)
  unfoldable pub hash_text : Argon2Config → Bytes → Bytes → Bytes
  hash_text c salt key =
      codes "$argon2id$v="
      ++ (show os.version
          ++ (codes "$m="
              ++ (show c.memory
                  ++ (codes ",t="
                      ++ (show c.iterations
                          ++ (codes ",p="
                              ++ (show c.parallelism
                                  ++ (codes "$"
                                      ++ (encode salt ++ (codes "$" ++ encode key))))))))))

  -- `none` is the panic of IDKey.
  abbrev pub hash_with : Bytes → Argon2Config → Result Bytes × S → Option (Result Bytes × S)
  hash_with password c (err e, s) = some (err e, s)
  hash_with password c (ok salt, s) =
      if key_panics c then none else some (ok (hash_text c salt (key_of password salt c)), s)

  unfoldable pub argon2_id_create_hash : Bytes → Argon2Config → S → Option (Result Bytes × S)
  unfolding generate_random_bytes hash_text
  argon2_id_create_hash password c s = hash_with password c (generate_random_bytes c.salt_length s)

  abbrev pub version_is : Option (ℤ × Bytes) → Result (Unit {0})
  version_is none = err os.scan_error
  version_is (some (pos n, s)) = if n == os.version then ok tt else err err_incompatible_version
  version_is (some (negsuc n, s)) = err err_incompatible_version

  abbrev pub costs_of : Option Costs → Result Costs
  costs_of none = err os.scan_error
  costs_of (some c) = ok c

  abbrev pub decoded : Option Bytes → Result Bytes
  decoded none = err os.corrupt_input_error
  decoded (some s) = ok s

  abbrev pub config_of : Costs → Bytes → Bytes → Argon2Config
  config_of n salt key = record {
    memory = n.m;
    iterations = n.t;
    parallelism = n.p;
    salt_length = length salt % 2 ^ 32;
    key_length = length key % 2 ^ 32;
  }

  unfoldable pub decode_fields :
      Bytes → Bytes → Bytes → Bytes → Result (Argon2Config × Bytes × Bytes)
  unfolding scan_version scan_costs
  decode_fields version costs salt key = and_then (version_is (scan_version version)) λ _.
      and_then (costs_of (scan_costs costs)) λ n.
        and_then (decoded (decode salt))
          λ salt. and_then (decoded (decode key)) λ key. ok (config_of n salt key, salt, key)

  unfoldable pub decode_tokens : List Bytes → Result (Argon2Config × Bytes × Bytes)
  unfolding decode_fields
  decode_tokens (t0 ∷ name ∷ version ∷ costs ∷ salt ∷ key ∷ []) =
      if bytes_eq name (codes "argon2id")
      then decode_fields version costs salt key
      else err err_invalid_hash
  decode_tokens _ = err err_invalid_hash

  unfoldable pub argon2_id_decode_hash : Bytes → Result (Argon2Config × Bytes × Bytes)
  unfolding decode_tokens
  argon2_id_decode_hash hash = decode_tokens (split b'$' hash)

  -- ConstantTimeEq of the lengths as int32, then ConstantTimeCompare.
  abbrev pub same_key : Bytes → Bytes → Bool
  same_key key other = length key % 2 ^ 32 == length other % 2 ^ 32 && bytes_eq key other

  abbrev pub compared :
      Bytes → Result (Argon2Config × Bytes × Bytes) → Option (Result (Bool × Argon2Config))
  compared password (err e) = some (err e)
  compared password (ok (c, salt, key)) =
      if key_panics c then none else some (ok (same_key key (key_of password salt c), c))

  unfoldable pub argon2_id_compare_password : Bytes → Bytes → Option (Result (Bool × Argon2Config))
  unfolding argon2_id_decode_hash
  argon2_id_compare_password password hash = compared password (argon2_id_decode_hash hash)

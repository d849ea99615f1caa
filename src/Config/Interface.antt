-- ===== src/Config/Interface.antt =====
-- config/interface.go: the getters of a configuration, and what both providers promise of them.
-- `F` stands for float64. A getter returns a value beside its error, as in Go; a
-- separator is one byte.
use blueprint.Prelude.{ℕ, ℤ, Bool, true, false, ◌&&◌, ◌≡◌, refl, some, List, [], ◌∷◌, Bytes}
use blueprint.Errors.{Err, err_no_key}

pub record ConfigInterface (F : Type 0) : Type 0 where
  pub get_string_key : Bytes → Bytes × Err
  pub get_bool_key : Bytes → Bool × Err
  pub get_int_key : Bytes → ℤ × Err
  pub get_float64_key : Bytes → F × Err
  pub get_slice_key : Bytes → ℕ → List Bytes × Err
  pub key_exists : Bytes → Bool
  pub key_list_exists : List Bytes → Bool

abbrev pub all_exist : (Bytes → Bool) → List Bytes → Bool
all_exist p [] = true
all_exist p (k ∷ ks) = p k && all_exist p ks

-- The error of a getter, by whether the key exists.
abbrev pub Reports : Bool → Err → Type 0
Reports true e = Unit
Reports false e = e ≡ some err_no_key

-- Every getter reports a missing key, and a list of keys exists if each of them does.
pub record IsConfig {F : Type 0} (c : ConfigInterface F) : Type 0 where
  pub string_missing : (k : Bytes) → Reports (c.key_exists k) (c.get_string_key k).1
  pub bool_missing : (k : Bytes) → Reports (c.key_exists k) (c.get_bool_key k).1
  pub int_missing : (k : Bytes) → Reports (c.key_exists k) (c.get_int_key k).1
  pub float64_missing : (k : Bytes) → Reports (c.key_exists k) (c.get_float64_key k).1
  pub slice_missing : (k : Bytes) (sep : ℕ) → Reports (c.key_exists k) (c.get_slice_key k sep).1
  pub list_exists : (ks : List Bytes) → c.key_list_exists ks ≡ all_exist c.key_exists ks

pub Reports-from : (b : Bool) (e : Err) → (b ≡ false → e ≡ some err_no_key) → Reports b e
Reports-from true e h = tt
Reports-from false e h = h refl

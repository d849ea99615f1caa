-- ===== src/Config/Env.antt =====
-- config/provider/env.go: settings from environment variables. `snake_upper` is stringy's
-- `SnakeCase("?", "").ToUpper()`, and float64 with its parser is a parameter. A destination that
-- Go passes as a pointer is a value here, and comes back with what was written to it.
pub mod Load
pub mod Lookup
pub mod Fields
use blueprint.Prelude.{
  ℕ, ℤ, pos, Bool, true, false, not, ◌&&◌, Option, none, some, List, [], ◌∷◌, ◌++◌, map, Bytes,
  codes, bytes_eq, has_prefix, lookup, insert, if◌then◌else◌,
}
use blueprint.Errors.{Error, Err, err_no_key, err_not_implemented, err_invalid_type}
use blueprint.Config.Interface.{ConfigInterface}
use blueprint.Config.Text.{to_upper, split_pair, split, trim_space, parse_bool, atoi, NumErrors}

-- What the provider takes from other packages.
pub record Library (F : Type 0) : Type 0 where
  pub snake_upper : Bytes → Bytes
  pub parse_float : Bytes → F × Err
  pub zero_float : F
  pub num_errors : NumErrors

pub record EnvProvider : Type 0 where
  pub prefix : Bytes
  pub config_data : List (Bytes × Bytes)
  pub convert_case : Bool

abbrev pub default_separator : ℕ
default_separator = b','

-- One variable of `os.Environ`. `none` is the panic on `toks[1]` of an entry with no `=`.
unfoldable pub load_entry :
    Bytes → Bytes × Option Bytes → List (Bytes × Bytes) → Option (List (Bytes × Bytes))
load_entry prefix (k, none) m = if has_prefix k prefix then none else some m
load_entry prefix (k, some v) m = some (if has_prefix k prefix then insert k v m else m)

unfoldable pub load : Bytes → List Bytes → List (Bytes × Bytes) → Option (List (Bytes × Bytes))
unfolding load_entry split_pair
load prefix [] m = some m
load prefix (env ∷ envs) m = elim (load_entry prefix (split_pair env) m) [
  | none ↦ none
  | some m' ↦ load prefix envs m'
]

unfoldable pub new_env_provider : Bytes → Bool → List Bytes → Option EnvProvider
unfolding load
new_env_provider prefix convert environ = elim (load prefix environ []) [
  | none ↦ none
  | some m ↦ some (record { prefix = prefix; config_data = m; convert_case = convert })
]

-- The value that a destination points at. `other_slice` is a slice whose elements are no strings,
-- `other` a value of any other kind.
pub data Value (F : Type 0) : Type 0 where
  str : Bytes → Value F
  int : ℤ → Value F
  bool : Bool → Value F
  float : F → Value F
  slice : List Bytes → Value F
  other_slice : Value F
  other : Value F

-- A field of a struct, with its `env` tag, empty if it has none.
pub record Field (F : Type 0) : Type 0 where
  pub exported : Bool
  pub name : Bytes
  pub tag : Bytes
  pub value : Value F

pub data Dest (F : Type 0) : Type 0 where
  ptr_struct : List (Field F) → Dest F
  ptr : Value F → Dest F
  not_ptr : Dest F

module _ {F : Type 0} (lib : Library F) (e : EnvProvider) where
  unfoldable pub convert_key : Bytes → Bytes
  convert_key key = if e.convert_case then lib.snake_upper key else key

  abbrev pub value_at : Bytes → Option Bytes
  value_at key = lookup (convert_key key) e.config_data

  -- What each getter does with `e.configData[e.convertKey(key)]`.
  unfoldable pub string_at : Option Bytes → Bytes × Err
  string_at none = ([], some err_no_key)
  string_at (some v) = (v, none)

  unfoldable pub bool_at : Option Bytes → Bool × Err
  unfolding parse_bool
  bool_at none = (false, some err_no_key)
  bool_at (some v) = parse_bool lib.num_errors.syntax v

  unfoldable pub int_at : Option Bytes → ℤ × Err
  unfolding atoi
  int_at none = (pos 0, some err_no_key)
  int_at (some v) = atoi lib.num_errors v

  unfoldable pub float_at : Option Bytes → F × Err
  float_at none = (lib.zero_float, some err_no_key)
  float_at (some v) = lib.parse_float v

  unfoldable pub slice_at : ℕ → Option Bytes → List Bytes × Err
  unfolding split trim_space
  slice_at separator none = ([], some err_no_key)
  slice_at separator (some v) = (map trim_space (split separator v), none)

  abbrev pub exists_at : Option Bytes → Bool
  exists_at none = false
  exists_at (some v) = true

  unfoldable pub get_string_key : Bytes → Bytes × Err
  unfolding string_at
  get_string_key key = string_at (value_at key)

  unfoldable pub get_bool_key : Bytes → Bool × Err
  unfolding bool_at
  get_bool_key key = bool_at (value_at key)

  unfoldable pub get_int_key : Bytes → ℤ × Err
  unfolding int_at
  get_int_key key = int_at (value_at key)

  unfoldable pub get_float64_key : Bytes → F × Err
  unfolding float_at
  get_float64_key key = float_at (value_at key)

  -- The separator is one byte; `GetKey` passes a comma.
  unfoldable pub get_slice_key : Bytes → ℕ → List Bytes × Err
  unfolding slice_at
  get_slice_key key separator = slice_at separator (value_at key)

  unfoldable pub key_exists : Bytes → Bool
  key_exists key = exists_at (value_at key)

  -- The key is converted here, and once more in `KeyExists`.
  unfoldable pub key_list_exists : List Bytes → Bool
  key_list_exists [] = true
  key_list_exists (k ∷ ks) = key_exists (convert_key k) && key_list_exists ks

  -- `if err == nil { dest.Set(v) }; return err`
  abbrev pub store {ℓ} : {A : Type ℓ} → (A → Value F) → Value F → A × Err → Value F × Err
  store set old (v, none) = (set v, none)
  store set old (v, some err) = (old, some err)

  -- The type switch of `readKeyInterface` on the destination, under the converted key.
  unfoldable pub read_typed : Bytes → Value F → Value F × Err
  unfolding get_string_key get_int_key get_bool_key get_float64_key get_slice_key
  read_typed key (str old) = store str (str old) (get_string_key key)
  read_typed key (int old) = store int (int old) (get_int_key key)
  read_typed key (bool old) = store bool (bool old) (get_bool_key key)
  read_typed key (float old) = store float (float old) (get_float64_key key)
  read_typed key (slice old) = store slice (slice old) (get_slice_key key default_separator)
  read_typed key dest = (dest, some err_not_implemented)

  unfoldable pub read_key_interface : Bytes → Value F → Value F × Err
  read_key_interface key dest = elim (value_at key) [
    | none ↦ (dest, some err_no_key)
    | some _ ↦ read_typed (convert_key key) dest
  ]

  -- The switch of `readPrefixedStruct` on the kind of the field; `none` is reflect's panic when a
  -- string is appended to a slice of another type.
  unfoldable pub set_field : Bytes → Value F → Option (Value F)
  set_field val (str old) = some (str val)
  set_field val (int old) = some (store int (int old) (atoi lib.num_errors val)).0
  set_field val (bool old) = some (store bool (bool old) (parse_bool lib.num_errors.syntax val)).0
  set_field val (float old) = some (store float (float old) (lib.parse_float val)).0
  set_field val (slice old) = some (slice (map trim_space (split default_separator val)))
  set_field val other_slice = none
  set_field val other = some other

  abbrev pub parsed {ℓ} : {A : Type ℓ} → A × Err → Bool
  parsed (v, none) = true
  parsed (v, some err) = false

  -- Whether that switch comes to a `Set` method, which panics on a field that is not exported.
  unfoldable pub sets_field : Bytes → Value F → Bool
  sets_field val (str old) = true
  sets_field val (int old) = parsed (atoi lib.num_errors val)
  sets_field val (bool old) = parsed (parse_bool lib.num_errors.syntax val)
  sets_field val (float old) = parsed (lib.parse_float val)
  sets_field val (slice old) = true
  sets_field val other_slice = true
  sets_field val other = false

  unfoldable pub field_key : Bytes → Field F → Bytes
  unfolding convert_key
  field_key prefix f =
      prefix ++ codes "_" ++ convert_key (if bytes_eq f.tag [] then f.name else f.tag)

  unfoldable pub read_field : Bytes → Field F → Option (Field F)
  unfolding sets_field
  read_field prefix f = elim (lookup (field_key prefix f) e.config_data) [
    | none ↦ some f
    | some val ↦
        if not f.exported && sets_field val f.value
        then none
        else (elim (set_field val f.value) [ none ↦ none | some v ↦ some (record f { value = v }) ])
  ]

  unfoldable pub read_fields : Bytes → List (Field F) → Option (List (Field F))
  read_fields prefix [] = some []
  read_fields prefix (f ∷ fs) = elim (read_field prefix f) [
    | none ↦ none
    | some g ↦ (elim (read_fields prefix fs) [ none ↦ none | some gs ↦ some (g ∷ gs) ])
  ]

  unfoldable pub read_prefixed_struct : Bytes → List (Field F) → Option (Dest F × Err)
  read_prefixed_struct prefix fields = elim (read_fields (to_upper (convert_key prefix)) fields) [
    | none ↦ none
    | some fs ↦ some (ptr_struct fs, none)
  ]

  -- A value that is no pointer comes to the type switch, which has no case for it.
  unfoldable pub get_key : Bytes → Dest F → Option (Dest F × Err)
  unfolding read_prefixed_struct read_key_interface
  get_key key (ptr_struct fields) = read_prefixed_struct key fields
  get_key key (ptr v) = (let (v', err) = read_key_interface key v in some (ptr v', err))
  get_key key not_ptr = elim (value_at key) [
    | none ↦ some (not_ptr, some err_no_key)
    | some _ ↦ some (not_ptr, some err_not_implemented)
  ]

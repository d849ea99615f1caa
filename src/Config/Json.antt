-- ===== src/Config/Json.antt =====
-- config/provider/json.go: settings from a JSON object. encoding/json is the parameter `Json`:
-- each of its functions is `json.Unmarshal` into a variable of one type, and returns the variable
-- and the error. `F` stands for float64, and the source of a provider is a file name, a text or a
-- reader whose content is read at once.
pub mod Contract
use blueprint.Prelude.{
  ℕ, ℤ, pos, Bool, true, false, ◌&&◌, Option, none, some, List, [], ◌∷◌, Bytes, lookup,
}
use blueprint.Errors.{Error, Err, Result, ok, err, err_no_key, err_json_invalid_source}
use blueprint.Config.Interface.{ConfigInterface}

pub record Json (F : Type 0) : Type 0 where
  pub object : Bytes → Result (List (Bytes × Bytes))
  pub string : Bytes → Bytes × Err
  pub bool : Bytes → Bool × Err
  pub int : Bytes → ℤ × Err
  pub float64 : Bytes → F × Err
  pub strings : Bytes → List Bytes × Err
  pub zero_float : F
  -- os.Open and io.ReadAll
  pub open_file : Bytes → Result Bytes

-- The types that `NewJsonProvider` switches on; a reader comes with what `io.ReadAll` gives.
pub data Source : Type 0 where
  raw_message : Bytes → Source
  reader : Result Bytes → Source
  file : Bytes → Source
  bytes : Bytes → Source
  other : Source

pub record JsonProvider : Type 0 where
  pub config_data : List (Bytes × Bytes)

module _ {F : Type 0} (lib : Json F) where
  unfoldable pub from_object : Bytes → Result JsonProvider
  from_object text = elim (lib.object text) [
    | err e ↦ err e
    | ok m ↦ ok (record { config_data = m })
  ]

  unfoldable pub from_reader : Result Bytes → Result JsonProvider
  unfolding from_object
  from_reader (err e) = err e
  from_reader (ok text) = from_object text

  unfoldable pub from_file : Bytes → Result JsonProvider
  unfolding from_reader
  from_file fname = from_reader (lib.open_file fname)

  unfoldable pub new_json_provider : Source → Result JsonProvider
  unfolding from_object from_reader from_file
  new_json_provider (raw_message text) = from_object text
  new_json_provider (reader content) = from_reader content
  new_json_provider (file fname) = from_file fname
  new_json_provider (bytes text) = from_object text
  new_json_provider other = err err_json_invalid_source

  module _ (j : JsonProvider) where
    abbrev pub raw_at : Bytes → Option Bytes
    raw_at key = lookup key j.config_data

    -- `GetKey` unmarshals into the destination: `into` is that, for its type.
    unfoldable pub get_key {ℓ} : {A : Type ℓ} → (Bytes → A × Err) → A → Bytes → A × Err
    get_key into dest key = elim (raw_at key) [ none ↦ (dest, some err_no_key) | some v ↦ into v ]

    abbrev pub empty_on_error : Bytes × Err → Bytes × Err
    empty_on_error (s, none) = (s, none)
    empty_on_error (s, some e) = ([], some e)

    unfoldable pub get_string_key : Bytes → Bytes × Err
    get_string_key key = elim (raw_at key) [
      | none ↦ ([], some err_no_key)
      | some v ↦ empty_on_error (lib.string v)
    ]

    unfoldable pub get_bool_key : Bytes → Bool × Err
    get_bool_key key = elim (raw_at key) [ none ↦ (false, some err_no_key) | some v ↦ lib.bool v ]

    unfoldable pub get_int_key : Bytes → ℤ × Err
    get_int_key key = elim (raw_at key) [ none ↦ (pos 0, some err_no_key) | some v ↦ lib.int v ]

    unfoldable pub get_float64_key : Bytes → F × Err
    get_float64_key key = elim (raw_at key) [
      | none ↦ (lib.zero_float, some err_no_key)
      | some v ↦ lib.float64 v
    ]

    -- The separator is ignored.
    unfoldable pub get_slice_key : Bytes → ℕ → List Bytes × Err
    get_slice_key key separator = elim (raw_at key) [
      | none ↦ ([], some err_no_key)
      | some v ↦ lib.strings v
    ]

    unfoldable pub get_config_node : Bytes → Result JsonProvider
    unfolding new_json_provider
    get_config_node key = elim (raw_at key) [
      | none ↦ err err_no_key
      | some v ↦ new_json_provider (raw_message v)
    ]

    unfoldable pub key_exists : Bytes → Bool
    key_exists key = elim (raw_at key) [ none ↦ false | some v ↦ true ]

    unfoldable pub key_list_exists : List Bytes → Bool
    unfolding key_exists
    key_list_exists [] = true
    key_list_exists (k ∷ ks) = key_exists k && key_list_exists ks

    -- The provider as a `ConfigInterface`.
    abbrev pub json_config : ConfigInterface F
    json_config = record {
      get_string_key = get_string_key;
      get_bool_key = get_bool_key;
      get_int_key = get_int_key;
      get_float64_key = get_float64_key;
      get_slice_key = get_slice_key;
      key_exists = key_exists;
      key_list_exists = key_list_exists;
    }

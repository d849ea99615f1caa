-- ===== src/Config/Env/Lookup.antt =====
-- The getters of config/provider/env.go against each other and against the interface.
use mathlib.Core.Path.{ap₂}
use blueprint.Prelude.{
  ◌&&◌, if◌then◌else◌, none, some, List, [], ◌∷◌, ◌≡◌, refl, ◌∙◌, ap, Bytes, All, arith, lookup,
  inl, inr, Option-cases, sym, map,
}
use blueprint.Errors.{Err, err_no_key, err_not_implemented}
use blueprint.Config.Interface.{ConfigInterface, IsConfig, Reports-from, all_exist}
use blueprint.Config.Text.{trim_space}
use blueprint.Config.Text.Split.{join, Without, split-join, map-trim_space}
use blueprint.Config.Env.{
  Library, EnvProvider, Value, str, int, bool, float, slice, other_slice, other, convert_key,
  value_at, get_string_key, get_bool_key, get_int_key, get_float64_key, get_slice_key, key_exists,
  exists_at, key_list_exists, read_typed, string_at, bool_at, int_at, float_at, slice_at,
  read_key_interface, default_separator, store,
}

module _ {F : Type 0} (lib : Library F) (e : EnvProvider) where
  -- The provider as a `ConfigInterface`.
  abbrev pub env_config : ConfigInterface F
  env_config = record {
    get_string_key = get_string_key lib e;
    get_bool_key = get_bool_key lib e;
    get_int_key = get_int_key lib e;
    get_float64_key = get_float64_key lib e;
    get_slice_key = get_slice_key lib e;
    key_exists = key_exists lib e;
    key_list_exists = key_list_exists lib e;
  }

  -- A getter's value is stored and its error returned; on an error the variable stays.
  abbrev pub Stored : {A : Type 0} → (A → Value F) → Value F → A × Err → Value F × Err → Type 0
  Stored set old (a, none) r = r ≡ (set a, none)
  Stored set old (a, some x) r = r ≡ (old, some x)

  -- What reading a key into a variable leaves in it and returns. A variable of a type that is not
  -- supported stays, and the error tells whether the key is there.
  abbrev pub IsRead : Bytes → Value F → Value F × Err → Type 0
  IsRead key (str old) r = Stored str (str old) (get_string_key lib e key) r
  IsRead key (int old) r = Stored int (int old) (get_int_key lib e key) r
  IsRead key (bool old) r = Stored bool (bool old) (get_bool_key lib e key) r
  IsRead key (float old) r = Stored float (float old) (get_float64_key lib e key) r
  IsRead key (slice old) r = Stored slice (slice old) (get_slice_key lib e key b',') r
  IsRead key other_slice r =
      r ≡ (other_slice, some (if key_exists lib e key then err_not_implemented else err_no_key))
  IsRead key other r =
      r ≡ (other, some (if key_exists lib e key then err_not_implemented else err_no_key))

  store-Stored :
      {A : Type 0} (set : A → Value F) (old : Value F) (r : A × Err)
      → Stored set old r (store lib e set old r)
  store-Stored set old (a, none) = refl
  store-Stored set old (a, some x) = refl

  Stored-missing :
      {A : Type 0} (set : A → Value F) (old : Value F) (r : A × Err)
      → r.1 ≡ some err_no_key
      → Stored set old r (old, some err_no_key)
  Stored-missing set old (a, none) h = ground (arith, h)
  Stored-missing set old (a, some x) h = ap (λ o. (old, o)) (sym h)

  -- A key that is missing.
  IsRead-missing :
      (key : Bytes) (v : Value F) → value_at lib e key ≡ none → IsRead key v (v, some err_no_key)
  unfolding get_string_key get_bool_key get_int_key get_float64_key get_slice_key key_exists
  IsRead-missing key (str old) n =
      Stored-missing str (str old) _ (ap (λ o. (string_at lib e o).1) n)
  IsRead-missing key (int old) n = Stored-missing int (int old) _ (ap (λ o. (int_at lib e o).1) n)
  IsRead-missing key (bool old) n =
      Stored-missing bool (bool old) _ (ap (λ o. (bool_at lib e o).1) n)
  IsRead-missing key (float old) n =
      Stored-missing float (float old) _ (ap (λ o. (float_at lib e o).1) n)
  IsRead-missing key (slice old) n =
      Stored-missing slice (slice old) _ (ap (λ o. (slice_at lib e b',' o).1) n)
  IsRead-missing key other_slice n = rw n refl
  IsRead-missing key other n = rw n refl

  module _ (idem : (k : Bytes) → lib.snake_upper (lib.snake_upper k) ≡ lib.snake_upper k) where
    convert_key_idem : (k : Bytes) → convert_key lib e (convert_key lib e k) ≡ convert_key lib e k
    unfolding convert_key
    convert_key_idem k = ground (arith, idem k)

    value_at-convert_key :
        (key : Bytes) → value_at lib e (convert_key lib e key) ≡ value_at lib e key
    value_at-convert_key key = ap (λ k. lookup k e.config_data) (convert_key_idem key)

    -- A key that is there, converted once more.
    IsRead-there :
        (key t : Bytes) (v : Value F)
        → value_at lib e key ≡ some t
        → IsRead key v (read_typed lib e (convert_key lib e key) v)
    unfolding read_typed key_exists get_string_key get_bool_key get_int_key get_float64_key
        get_slice_key
    IsRead-there key t (str old) h = rw (value_at-convert_key key) (store-Stored str (str old) _)
    IsRead-there key t (int old) h = rw (value_at-convert_key key) (store-Stored int (int old) _)
    IsRead-there key t (bool old) h = rw (value_at-convert_key key) (store-Stored bool (bool old) _)
    IsRead-there key t (float old) h =
        rw (value_at-convert_key key) (store-Stored float (float old) _)
    IsRead-there key t (slice old) h =
        rw (value_at-convert_key key) (store-Stored slice (slice old) _)
    IsRead-there key t other_slice h = rw h refl
    IsRead-there key t other h = rw h refl

    -- A conversion of keys that changes nothing the second time: reading a key into a variable of a
    -- supported type, for which `GetKey` converts the key twice, stores what the getter of that
    -- type returns for the key itself, with the getter's error, and leaves the variable alone on an
    -- error. A variable of another type is left alone, with `ErrNoKey` for a missing key and
    -- `ErrNotImplemented` for one that is there.
    pub read_key_interface-IsRead :
        (key : Bytes) (v : Value F) → IsRead key v (read_key_interface lib e key v)
    unfolding read_key_interface
    read_key_interface-IsRead key v = elim (Option-cases (value_at lib e key)) [
      | inl n ↦ rw (n, read_key_interface) (IsRead-missing key v n)
      | inr (t, h) ↦ rw (h, read_key_interface) (IsRead-there key t v h)
    ]

    key_exists-convert_key :
        (k : Bytes) → key_exists lib e (convert_key lib e k) ≡ key_exists lib e k
    unfolding key_exists
    key_exists-convert_key k = ap (exists_at lib e) (value_at-convert_key k)

    key_list_exists-all :
        (ks : List Bytes) → key_list_exists lib e ks ≡ all_exist (key_exists lib e) ks
    unfolding key_list_exists
    key_list_exists-all [] = refl
    key_list_exists-all (k ∷ ks) = ap₂ ◌&&◌ (key_exists-convert_key k) (key_list_exists-all ks)

    -- With a conversion of keys that changes nothing the second time, the environment provider
    -- meets the interface: each getter reports a missing key, and a list of keys exists if each of
    -- them does.
    pub env_config-IsConfig : IsConfig env_config
    unfolding key_exists get_string_key get_bool_key get_int_key get_float64_key get_slice_key
    env_config-IsConfig = record {
      string_missing = λ k. Reports-from _ _ (λ h. ground arith);
      bool_missing = λ k. Reports-from _ _ (λ h. ground arith);
      int_missing = λ k. Reports-from _ _ (λ h. ground arith);
      float64_missing = λ k. Reports-from _ _ (λ h. ground arith);
      slice_missing = λ k sep. Reports-from _ _ (λ h. ground arith);
      list_exists = key_list_exists-all;
    }

  -- A variable that holds pieces joined by commas, none of which holds a comma or has white space
  -- at an end, is read back as those pieces.
  get_slice_key-join :
      (key p : Bytes) (ps : List Bytes)
      → value_at lib e key ≡ some (join default_separator (p ∷ ps))
      → All (Without default_separator) (p ∷ ps)
      → All (λ q. trim_space q ≡ q) (p ∷ ps)
      → get_slice_key lib e key default_separator ≡ (p ∷ ps, none)
  unfolding get_slice_key
  get_slice_key-join key p ps h sep trimmed =
      ap (slice_at lib e default_separator) h
      ∙ ap (λ xs. (map trim_space xs, none)) (split-join default_separator p ps sep)
      ∙ ap (λ xs. (xs, none)) (map-trim_space (p ∷ ps) trimmed)

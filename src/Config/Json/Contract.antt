-- ===== src/Config/Json/Contract.antt =====
-- config/provider/json.go as a configuration, and its nested nodes.
use blueprint.Prelude.{◌&&◌, List, [], ◌∷◌, ◌≡◌, refl, ap, Bytes, arith, some}
use blueprint.Errors.{ok}
use blueprint.Config.Interface.{IsConfig, Reports-from, all_exist}
use blueprint.Config.Json.{
  Json, JsonProvider, bytes, reader, file, new_json_provider, get_string_key, get_bool_key,
  get_int_key, get_float64_key, get_slice_key, get_config_node, key_exists, key_list_exists,
  json_config, raw_at,
}

module _ {F : Type 0} (lib : Json F) where
  key_list_exists-all :
      (j : JsonProvider) (ks : List Bytes)
      → key_list_exists lib j ks ≡ all_exist (key_exists lib j) ks
  unfolding key_list_exists
  key_list_exists-all j [] = refl
  key_list_exists-all j (k ∷ ks) = ap (λ b. key_exists lib j k && b) (key_list_exists-all j ks)

  -- The JSON provider meets the interface: each getter reports a missing key, and a list of keys
  -- exists if each of them does.
  json_config-IsConfig : (j : JsonProvider) → IsConfig (json_config lib j)
  unfolding key_exists get_string_key get_bool_key get_int_key get_float64_key get_slice_key
  json_config-IsConfig j = record {
    string_missing = λ k. Reports-from _ _ (λ h. ground arith);
    bool_missing = λ k. Reports-from _ _ (λ h. ground arith);
    int_missing = λ k. Reports-from _ _ (λ h. ground arith);
    float64_missing = λ k. Reports-from _ _ (λ h. ground arith);
    slice_missing = λ k sep. Reports-from _ _ (λ h. ground arith);
    list_exists = key_list_exists-all j;
  }

  -- A key whose value is a JSON object opens as a configuration of its own, whose keys are those of
  -- the object; and a text, a reader and a file that hold the same bytes make the same provider.
  get_config_node-object :
      (j : JsonProvider) (key v text fname : Bytes) (m : List (Bytes × Bytes))
      → raw_at lib j key ≡ some v
      → lib.object v ≡ ok m
      → lib.open_file fname ≡ ok text
      → (get_config_node lib j key ≡ ok (record { config_data = m }))
        × (new_json_provider lib (file fname) ≡ new_json_provider lib (bytes text))
        × (new_json_provider lib (reader (ok text)) ≡ new_json_provider lib (bytes text))
  unfolding get_config_node
  get_config_node-object j key v text fname m at opens reads =
      (ground arith, ground arith, ground arith)

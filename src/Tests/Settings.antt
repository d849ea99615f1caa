-- ===== src/Tests/Settings.antt =====
-- Configurations of config/provider/env.go and json.go.
use blueprint.Prelude.{
  ℕ, pos, true, ◌≡◌, refl, none, some, List, [], ◌∷◌, map, Bytes, codes, lookup, arith,
}
use blueprint.Errors.{foreign}
use blueprint.Config.Interface.{IsConfig}
use blueprint.Config.Text.{NumErrors, to_upper}
use blueprint.Config.Env.{Library, EnvProvider, load, str, int, Field, read_key_interface}
use blueprint.Config.Env.Load.{entry, last_value, load_lem}
use blueprint.Config.Env.Lookup.{env_config, env_config-IsConfig, IsRead, read_key_interface-IsRead}

abbrev num_errors : NumErrors
num_errors = record { syntax = foreign 1; range = foreign 2 }

abbrev library : Library ℕ
library = record {
  snake_upper = to_upper;
  parse_float = λ t. (0, some (foreign 3));
  zero_float = 0;
  num_errors = num_errors;
}

to_upper_idem : (k : Bytes) → to_upper (to_upper k) ≡ to_upper k
unfolding to_upper
to_upper_idem [] = refl
to_upper_idem (c ∷ k) = ground (arith, to_upper_idem k)

abbrev provider : EnvProvider
provider = record {
  prefix = codes "A";
  config_data = (codes "A_PORT", codes "80") ∷ (codes "AB", codes "x,y") ∷ [];
  convert_case = true;
}

abbrev variables : List (Bytes × Bytes)
variables = (codes "A", codes "1") ∷ (codes "B", codes "2") ∷ (codes "A", codes "3") ∷ []

load_lem_example :
    (m' : List (Bytes × Bytes)) × (load (codes "A") (map entry variables) [] ≡ some m')
    × ((key : Bytes) → lookup key m' ≡ last_value (codes "A") key variables none)
unfolding lookup
load_lem_example = load_lem (codes "A") variables [] ((refl, tt), ((refl, tt), ((refl, tt), tt)))

abbrev fields : List (Field ℕ)
fields = record { exported = true; name = codes "Port"; tag = []; value = int (pos 1) } ∷ []

read_key_interface-IsRead_example :
    IsRead library provider
      (codes "ab")
      (str [])
      (read_key_interface library provider (codes "ab") (str []))
read_key_interface-IsRead_example =
    read_key_interface-IsRead library provider to_upper_idem (codes "ab") (str [])

env_config-IsConfig_example : IsConfig (env_config library provider)
env_config-IsConfig_example = env_config-IsConfig library provider to_upper_idem

-- ===== src/Config/Env/Fields.antt =====
-- What `readPrefixedStruct` of config/provider/env.go does to the fields of a struct.
use blueprint.Prelude.{
  map, Bool, true, false, ◌++◌, codes, Option, none, some, List, [], ◌∷◌, ◌≡◌, ◌≢◌, Bytes, lookup,
}
use blueprint.Errors.{Err}
use blueprint.Config.Text.{to_upper, parse_bool, atoi, split, trim_space}
use blueprint.Config.Env.{
  default_separator, Library, EnvProvider, Value, str, int, bool, float, slice, other_slice, other,
  Field,
}

pub data Kind : Type 0 where
  string_kind int_kind bool_kind float_kind slice_kind other_slice_kind other_kind : Kind

abbrev pub kind : {F : Type 0} → Value F → Kind
kind (str v) = string_kind
kind (int v) = int_kind
kind (bool v) = bool_kind
kind (float v) = float_kind
kind (slice v) = slice_kind
kind other_slice = other_slice_kind
kind other = other_kind

-- A string takes the text of its variable and a slice its pieces; a number or a truth value that
-- does not parse is kept.
abbrev pub Written : {F : Type 0} → Library F → Option Bytes → Value F → Value F → Type 0
Written lib none v w = w ≡ v
Written lib (some t) (str old) w = w ≡ str t
Written lib (some t) (int old) w = elim (atoi lib.num_errors t).1 [
  | none ↦ w ≡ int (atoi lib.num_errors t).0
  | some _ ↦ w ≡ int old
]
Written lib (some t) (bool old) w = elim (parse_bool lib.num_errors.syntax t).1 [
  | none ↦ w ≡ bool (parse_bool lib.num_errors.syntax t).0
  | some _ ↦ w ≡ bool old
]
Written lib (some t) (float old) w = elim (lib.parse_float t).1 [
  | none ↦ w ≡ float (lib.parse_float t).0
  | some _ ↦ w ≡ float old
]
Written lib (some t) (slice old) w = w ≡ slice (map trim_space (split default_separator t))
Written lib (some t) other_slice w = ⊥
Written lib (some t) other w = w ≡ other

module _ {F : Type 0} (lib : Library F) (e : EnvProvider) (prefix : Bytes) where
  abbrev converted : Bool → Bytes → Bytes
  converted true k = lib.snake_upper k
  converted false k = k

  abbrev tag_or_name : Bytes → Bytes → Bytes
  tag_or_name [] name = name
  tag_or_name (c ∷ tag) name = c ∷ tag

  -- The variable of a field: the prefix, converted if the provider converts, in upper case, an
  -- underscore, and the field's tag, or its name if it has none, converted if the provider
  -- converts, and otherwise as it is.
  abbrev pub variable_of : Field F → Bytes
  variable_of f =
      to_upper (converted e.convert_case prefix)
      ++ codes "_"
      ++ converted e.convert_case (tag_or_name f.tag f.name)

  -- The second list is the first one with other values of the same kinds, each `Written` from the
  -- variable of its field.
  abbrev pub Updated : List (Field F) → List (Field F) → Type 0
  Updated [] [] = Unit
  Updated [] (g ∷ gs) = ⊥
  Updated (f ∷ fs) [] = ⊥
  Updated (f ∷ fs) (g ∷ gs) =
      (g.name ≡ f.name)
      × (g.tag ≡ f.tag)
      × (kind g.value ≡ kind f.value)
      × Written lib (lookup (variable_of f) e.config_data) f.value g.value
      × Updated fs gs

  -- The fields are exported, and none is a slice of something else than strings.
  abbrev pub AreSettable : List (Field F) → Type 0
  AreSettable [] = Unit
  AreSettable (f ∷ fs) = (f.exported ≡ true) × (kind f.value ≢ other_slice_kind) × AreSettable fs

  -- What is stored from a result, for either outcome.
  abbrev Stored : {A : Type 0} → (A → Value F) → Value F → A × Err → Value F → Type 0
  Stored set old r w = elim r.1 [ none ↦ w ≡ set r.0 | some _ ↦ w ≡ old ]

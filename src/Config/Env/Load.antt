-- ===== src/Config/Env/Load.antt =====
-- Which variables config/provider/env.go loads, and with which values.
use blueprint.Prelude.{
  true, ◌&&◌, Option, none, some, List, [], ◌∷◌, ◌++◌, ◌≡◌, refl, ◌∙◌, map, Bytes, bytes_eq,
  has_prefix, lookup, insert, lookup-insert, if◌then◌else◌, All, Bool-cases, Option-cases, ap, inl,
  inr,
}
use blueprint.Config.Text.{split_pair}
use blueprint.Config.Text.Split.{Without, split_pair-append, split_pair_self}
use blueprint.Config.Env.{load_entry, load}

-- An entry of `os.Environ` with its `=`.
abbrev pub entry : Bytes × Bytes → Bytes
entry (k, v) = k ++ b'=' ∷ v

-- The value of the last assignment to the key among those with the prefix, or `old` if there is
-- none.
abbrev pub last_value : Bytes → Bytes → List (Bytes × Bytes) → Option Bytes → Option Bytes
last_value prefix key [] old = old
last_value prefix key ((k, v) ∷ kvs) old =
    last_value prefix key kvs (if has_prefix k prefix && bytes_eq k key then some v else old)

load_entry-entry :
    (prefix k v : Bytes) (m : List (Bytes × Bytes))
    → Without b'=' k
    → load_entry prefix (split_pair (entry (k, v))) m
      ≡ some (if has_prefix k prefix then insert k v m else m)
load_entry-entry prefix k v m h =
    ap (λ p. load_entry prefix p m) (split_pair-append k v h) ∙ unfold load_entry in refl

load_entry-bare :
    (prefix k : Bytes) (m : List (Bytes × Bytes))
    → Without b'=' k
    → has_prefix k prefix ≡ true
    → load_entry prefix (split_pair k) m ≡ none
load_entry-bare prefix k m h p =
    ap (λ q. load_entry prefix q m) (split_pair_self k h) ∙ unfold load_entry in (rw p refl)

load-step :
    (prefix k v : Bytes) (envs : List Bytes) (m : List (Bytes × Bytes))
    → Without b'=' k
    → load prefix (entry (k, v) ∷ envs) m
      ≡ load prefix envs (if has_prefix k prefix then insert k v m else m)
unfolding load
load-step prefix k v envs m h = rw (load_entry-entry prefix k v m h, load) refl

-- Of variables whose names hold no `=`, the provider keeps exactly those with the prefix, each with
-- the value assigned last, and it does not panic.
pub load_lem :
    (prefix : Bytes) (kvs m : List (Bytes × Bytes))
    → All (λ kv. Without b'=' kv.0) kvs
    → (m' : List (Bytes × Bytes)) × (load prefix (map entry kvs) m ≡ some m')
      × ((key : Bytes) → lookup key m' ≡ last_value prefix key kvs (lookup key m))
load_lem prefix [] m h = (m, unfold load in refl, λ key. refl)
load_lem prefix ((k, v) ∷ kvs) m h =
    let m1 : List (Bytes × Bytes) = if has_prefix k prefix then insert k v m else m in
    let (m', loaded, values) = load_lem prefix kvs m1 h.1 in
    (
      m',
      load-step prefix k v (map entry kvs) m h.0 ∙ loaded,
      λ key. values key ∙ ap (last_value prefix key kvs) (stored key),
    )
  where
    stored :
        (key : Bytes)
        → lookup key (if has_prefix k prefix then insert k v m else m)
          ≡ (if has_prefix k prefix && bytes_eq k key then some v else lookup key m)
    stored key = elim (Bool-cases (has_prefix k prefix)) [
      | inl e ↦ rw e (lookup-insert k key v m)
      | inr e ↦ rw e refl
    ]

-- An entry with no `=` that starts with the prefix makes the provider panic, wherever it stands.
load_panics :
    (prefix k : Bytes) (before after : List Bytes) (m : List (Bytes × Bytes))
    → Without b'=' k
    → has_prefix k prefix ≡ true
    → load prefix (before ++ k ∷ after) m ≡ none
unfolding load
load_panics prefix k [] after m h p = rw (load_entry-bare prefix k m h p, load) refl
load_panics prefix k (env ∷ before) after m h p =
    elim (Option-cases (load_entry prefix (split_pair env) m)) [
      | inl e ↦ rw (e, load) refl
      | inr (m', e) ↦ rw (e, load) (load_panics prefix k before after m' h p)
    ]

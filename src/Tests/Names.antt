-- ===== src/Tests/Names.antt =====
-- An index of utils/str/strutils.go.
use blueprint.Prelude.{pos, lez, List, [], ◌∷◌, ◌≡◌, codes, Bytes}
use blueprint.Str.{contains, Indexes, contains-Indexes}
use blueprint.Tls.{contains_name}

abbrev names : List Bytes
names = codes "none" ∷ codes "plain" ∷ codes "scram256" ∷ codes "plain" ∷ []

contains-Indexes_example :
    Indexes 0 (codes "plain") names (contains (codes "plain") names)
    × (lez (pos 0) (contains (codes "plain") names) ≡ contains_name (codes "plain") names)
contains-Indexes_example = contains-Indexes (codes "plain") names

-- ===== src/Config/Wrap.antt =====
-- config/wrap.go: a value, or the contents of the file that it names.
use blueprint.Prelude.{
  ◌||◌, Option, none, some, [], ◌∷◌, Bytes, codes, has_prefix, if◌then◌else◌, reverse, ◌==◌,
}

-- strings.TrimSuffix(s, "\n"), on the reversed string.
abbrev without_newline : Bytes → Bytes
without_newline [] = []
without_newline (c ∷ s) = if c == 10 then s else c ∷ s

unfoldable pub trim_newline : Bytes → Bytes
trim_newline s = reverse (without_newline (reverse s))

-- `read_file` is os.ReadFile, and gives nothing on an error.
unfoldable pub str_or_file : (Bytes → Option Bytes) → Bytes → Bytes
unfolding trim_newline
str_or_file read_file value =
    if has_prefix value (codes "/") || has_prefix value (codes "./")
    then (elim (read_file value) [ none ↦ value | some content ↦ trim_newline content ])
    else value

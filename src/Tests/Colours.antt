-- ===== src/Tests/Colours.antt =====
-- The colours of console/ansi.go.
use blueprint.Prelude.{pos, some, [], ◌∷◌, ◌++◌, ◌≡◌, codes, arith}
use blueprint.Console.{reset, colorize}
use blueprint.Console.Sequence.{read_sequence, colorize_lem}

-- Cyan on black.
colorize_lem_example :
    (read_sequence 2 (colorize (pos 36 ∷ pos 40 ∷ []) (codes "done"))
      ≡ some (pos 36 ∷ pos 40 ∷ [], codes "done" ++ reset))
    × (read_sequence 2 reset ≡ some (pos 0 ∷ [], []))
colorize_lem_example =
    colorize_lem 2 36 (40 ∷ []) (codes "done") (omega arith) (omega arith, (omega arith, tt))

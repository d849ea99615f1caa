-- ===== src/Console.antt =====
-- console/ansi.go: the escape sequences for colours. A string that `fmt.Sprintf` has formatted from
-- its arguments is a parameter of `colorize`; an attribute is an `int`.
pub mod Sequence
use blueprint.Prelude.{ℕ, ℤ, pos, List, [], ◌∷◌, ◌++◌, map, Bytes, codes}
use blueprint.Servers.{show_int}
use blueprint.Config.Text.Split.{join}

abbrev pub escape : ℕ
escape = 27

abbrev pub fg_black : ℤ
fg_black = pos 30

abbrev pub fg_red : ℤ
fg_red = pos 31

abbrev pub fg_green : ℤ
fg_green = pos 32

abbrev pub fg_yellow : ℤ
fg_yellow = pos 33

abbrev pub fg_blue : ℤ
fg_blue = pos 34

abbrev pub fg_magenta : ℤ
fg_magenta = pos 35

abbrev pub fg_cyan : ℤ
fg_cyan = pos 36

abbrev pub fg_white : ℤ
fg_white = pos 37

abbrev pub fg_default : ℤ
fg_default = pos 39

abbrev pub bg_black : ℤ
bg_black = pos 40

abbrev pub bg_red : ℤ
bg_red = pos 41

abbrev pub bg_green : ℤ
bg_green = pos 42

abbrev pub bg_yellow : ℤ
bg_yellow = pos 43

abbrev pub bg_blue : ℤ
bg_blue = pos 44

abbrev pub bg_magenta : ℤ
bg_magenta = pos 45

abbrev pub bg_cyan : ℤ
bg_cyan = pos 46

abbrev pub bg_white : ℤ
bg_white = pos 47

abbrev pub bg_default : ℤ
bg_default = pos 39

abbrev pub fg_light_black : ℤ
fg_light_black = pos 90

abbrev pub fg_light_red : ℤ
fg_light_red = pos 91

abbrev pub fg_light_green : ℤ
fg_light_green = pos 92

abbrev pub fg_light_yellow : ℤ
fg_light_yellow = pos 93

abbrev pub fg_light_blue : ℤ
fg_light_blue = pos 94

abbrev pub fg_light_magenta : ℤ
fg_light_magenta = pos 95

abbrev pub fg_light_cyan : ℤ
fg_light_cyan = pos 96

abbrev pub fg_light_white : ℤ
fg_light_white = pos 97

abbrev pub bg_light_black : ℤ
bg_light_black = pos 100

abbrev pub bg_light_red : ℤ
bg_light_red = pos 101

abbrev pub bg_light_green : ℤ
bg_light_green = pos 102

abbrev pub bg_light_yellow : ℤ
bg_light_yellow = pos 103

abbrev pub bg_light_blue : ℤ
bg_light_blue = pos 104

abbrev pub bg_light_magenta : ℤ
bg_light_magenta = pos 105

abbrev pub bg_light_cyan : ℤ
bg_light_cyan = pos 106

abbrev pub bg_light_white : ℤ
bg_light_white = pos 107

abbrev pub bold : ℤ
bold = pos 1

abbrev pub dim : ℤ
dim = pos 2

abbrev pub italic : ℤ
italic = pos 3

abbrev pub underline : ℤ
underline = pos 4

abbrev pub blink : ℤ
blink = pos 5

abbrev pub reversed : ℤ
reversed = pos 7

abbrev pub hide : ℤ
hide = pos 8

unfoldable pub color : List ℤ → Bytes
color [] = []
color (c ∷ cs) = escape ∷ b'[' ∷ join b';' (map show_int (c ∷ cs)) ++ codes "m"

unfoldable pub reset : Bytes
reset = escape ∷ codes "[0m"

-- The function that `Colorize` returns, on its formatted text.
unfoldable pub colorize : List ℤ → Bytes → Bytes
unfolding color reset
colorize colors text = color colors ++ (text ++ reset)

unfoldable pub regular : Bytes → Bytes
unfolding colorize
regular text = colorize (fg_white ∷ bg_black ∷ []) text

unfoldable pub info : Bytes → Bytes
unfolding colorize
info text = colorize (fg_cyan ∷ bg_black ∷ []) text

unfoldable pub warn : Bytes → Bytes
unfolding colorize
warn text = colorize (fg_yellow ∷ bg_black ∷ []) text

unfoldable pub error : Bytes → Bytes
unfolding colorize
error text = colorize (fg_red ∷ bg_black ∷ []) text

unfoldable pub success : Bytes → Bytes
unfolding colorize
success text = colorize (fg_green ∷ bg_black ∷ []) text

-- ===== src/Base/Text.antt =====
-- The functions of Go's `strings` that the program uses, over the native text.
use Prim.Native.String.{String}
use mathlib.Core.Bool.{Bool, ◌||◌}
use text.Mathlib.Text.{◌==◌, starts_with}

-- strings.Contains
abbrev pub contains : String → String → Bool
contains String.[] t = t == ""
contains (String.◌∷◌ c s) t = starts_with (String.◌∷◌ c s) t || contains s t

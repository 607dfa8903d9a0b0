-- ===== src/Common/Words.antt =====
-- Splitting a text and its lower case, as Go's package `strings` does them.
use Prim.Native.Nat.{ℕ, ◌-◌}
use Prim.Native.Char.{Char, code}
use Prim.Native.String.{String, char_at}
use mathlib.Core.Bool.{Bool, not, ◌&&◌}
use mathlib.Core.List.{List, [], ◌∷◌}
use text.Mathlib.Text.{◌==◌}
use agent_machine.Common.Tests.{leb, if◌then◌else◌}
use agent_machine.Common.Text.{is_space}
use agent_machine.Common.Table.{select_where}

-- one more character in front of the first piece
abbrev pub onto_first : Char → List String → List String
onto_first c [] = String.◌∷◌ c String.[] ∷ []
onto_first c (p ∷ ps) = String.◌∷◌ c p ∷ ps

unfoldable pub pieces : (ℕ → Bool) → String → List String
pieces separates String.[] = "" ∷ []
pieces separates (String.◌∷◌ c s) =
    let rest = pieces separates s in if separates (code c) then "" ∷ rest else onto_first c rest

-- strings.FieldsFunc
unfoldable pub fields_func : (ℕ → Bool) → String → List String
unfolding pieces select_where
fields_func separates s = select_where (λ p. not (p == "")) (pieces separates s)

-- strings.Fields
unfoldable pub fields : String → List String
unfolding fields_func is_space
fields s = fields_func is_space s

-- unicode.ToLower, which leaves the code points outside ASCII as they are
abbrev pub lower_char : Char → Char
lower_char c =
    if leb 65 (code c) && leb (code c) 90
    then char_at "abcdefghijklmnopqrstuvwxyz" (code c - 65)
    else c

-- strings.ToLower, for an ASCII text
unfoldable pub to_lower : String → String
to_lower String.[] = String.[]
to_lower (String.◌∷◌ c s) = String.◌∷◌ (lower_char c) (to_lower s)

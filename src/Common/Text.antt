-- ===== src/Common/Text.antt =====
-- The functions of Go's package `strings` that the program calls, over the code points of a text.
use Prim.Native.Nat.{ℕ, ◌+◌}
use Prim.Native.Char.{code}
use Prim.Native.String.{String, ◌++◌}
use mathlib.Core.Path.{◌≡◌, refl}
use mathlib.Core.Bool.{Bool, true, false, ◌&&◌, ◌||◌}
use mathlib.Core.List.{List, [], ◌∷◌}
use native.Mathlib.Omega.{arith}
use text.Mathlib.Text.{◌==◌}
use mathlib.Core.Logic.{inl, inr}
use text.Mathlib.TextEquality.{eq_iff}
use text.Mathlib.TextLemmas.{append-eq-nil_iff}
use agent_machine.Common.Tests.{leb, eqb, if◌then◌else◌, Bool-cases, ==→≡}

-- unicode.IsSpace
unfoldable pub is_space : ℕ → Bool
is_space c =
    (leb 9 c && leb c 13)
    || eqb c 32
    || eqb c 0x85
    || eqb c 0xa0
    || eqb c 0x1680
    || (leb 0x2000 c && leb c 0x200a)
    || eqb c 0x2028
    || eqb c 0x2029
    || eqb c 0x202f
    || eqb c 0x205f
    || eqb c 0x3000

abbrev pub is_empty : String → Bool
is_empty String.[] = true
is_empty (String.◌∷◌ c s) = false

unfoldable pub trim_left : String → String
unfolding is_space
trim_left String.[] = String.[]
trim_left (String.◌∷◌ c s) = if is_space (code c) then trim_left s else String.◌∷◌ c s

unfoldable pub trim_right : String → String
unfolding is_space
trim_right String.[] = String.[]
trim_right (String.◌∷◌ c s) =
    let r = trim_right s in if is_empty r && is_space (code c) then String.[] else String.◌∷◌ c r

-- strings.TrimSpace
unfoldable pub trim_space : String → String
unfolding trim_left trim_right
trim_space s = trim_right (trim_left s)

-- unicode.ToLower, with the code points outside ASCII whose lower case is outside ASCII too left as
-- they are: the results are only compared with ASCII texts.
unfoldable pub lower_code : ℕ → ℕ
lower_code c =
    if leb 65 c && leb c 90
    then c + 32
    else if eqb c 0x130
    then 105
    else if eqb c 0x212a
    then 107
    else c

-- unicode.SimpleFold, brought to one representative, in the same way.
unfoldable pub fold_code : ℕ → ℕ
fold_code c =
    if leb 65 c && leb c 90
    then c + 32
    else if eqb c 0x212a
    then 107
    else if eqb c 0x17f
    then 115
    else c

abbrev pub map_codes : (ℕ → ℕ) → String → List ℕ
map_codes f String.[] = []
map_codes f (String.◌∷◌ c s) = f (code c) ∷ map_codes f s

abbrev pub codes_eq : List ℕ → List ℕ → Bool
codes_eq [] [] = true
codes_eq (x ∷ xs) (y ∷ ys) = eqb x y && codes_eq xs ys
codes_eq _ _ = false

-- strings.EqualFold, where one side is an ASCII text
unfoldable pub equal_fold : String → String → Bool
unfolding fold_code
equal_fold s t = codes_eq (map_codes fold_code s) (map_codes fold_code t)

abbrev pub codes_prefix : List ℕ → List ℕ → Bool
codes_prefix [] ys = true
codes_prefix (x ∷ xs) [] = false
codes_prefix (x ∷ xs) (y ∷ ys) = eqb x y && codes_prefix xs ys

abbrev pub codes_contain : List ℕ → List ℕ → Bool
codes_contain xs [] = codes_prefix xs []
codes_contain xs (y ∷ ys) = codes_prefix xs (y ∷ ys) || codes_contain xs ys

-- strings.Contains(strings.ToLower(s), part), for an ASCII `part`
unfoldable pub lower_contains : String → String → Bool
unfolding lower_code
lower_contains s part = codes_contain (map_codes (λ c. c) part) (map_codes lower_code s)

-- strings.HasSuffix
unfoldable pub has_suffix : String → String → Bool
has_suffix String.[] part = part == ""
has_suffix (String.◌∷◌ c s) part = String.◌∷◌ c s == part || has_suffix s part

pub trim_right-trim_right : (s : String) → trim_right (trim_right s) ≡ trim_right s
unfolding trim_right
trim_right-trim_right String.[] = refl
trim_right-trim_right (String.◌∷◌ c s) = ground (arith, trim_right-trim_right s)

-- the texts of a list, one after the other
abbrev pub concat : List String → String
concat [] = ""
concat (s ∷ ss) = s ++ concat ss

-- strings.Join
abbrev pub join : String → List String → String
join sep [] = ""
join sep (s ∷ []) = s
join sep (s ∷ t ∷ ss) = s ++ (sep ++ join sep (t ∷ ss))

-- A text that begins with one that is not empty is not empty.
pub append_nonempty : (s t : String) → (s == "") ≡ false → ((s ++ t) == "") ≡ false
append_nonempty s t h = elim (Bool-cases ((s ++ t) == "")) [
  | inl e ↦ absurd (ground (arith, h, (eq_iff s "").1 (append-eq-nil_iff.0 (==→≡ (s ++ t) "" e)).0))
  | inr e ↦ e
]

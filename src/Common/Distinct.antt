-- ===== src/Common/Distinct.antt =====
-- Lists of texts without repetition, kept by appending what is not there yet.
use Prim.Native.String.{String}
use mathlib.Core.Path.{◌≡◌, refl, subst}
use mathlib.Core.Bool.{Bool, true, false, ◌||◌}
use mathlib.Core.List.{List, [], ◌∷◌, ◌++◌}
use mathlib.Core.Logic.{inl, inr}
use native.Mathlib.Omega.{arith}
use text.Mathlib.Text.{◌==◌}
use text.Mathlib.TextEquality.{eq_iff}
use agent_machine.Common.Tests.{if◌then◌else◌, Bool-cases, ==→≡}

-- The loop of containsString, and a look-up in a set of the texts seen.
unfoldable pub contains : List String → String → Bool
contains [] x = false
contains (v ∷ vs) x = v == x || contains vs x

abbrev pub add_unique : List String → String → List String
add_unique vs x = if contains vs x then vs else vs ++ x ∷ []

unfoldable pub IsDistinct : List String → Type 0
IsDistinct [] = Unit
IsDistinct (v ∷ vs) = (contains vs v ≡ false) × IsDistinct vs

-- the loop of uniqueStrings
unfoldable pub unique_from : List String → List String → List String
unfolding contains
unique_from acc [] = acc
unique_from acc (v ∷ vs) = unique_from (add_unique acc v) vs

abbrev pub unique_strings : List String → List String
unique_strings values = unique_from [] values

pub contains-append :
    (vs : List String) (y x : String) → contains (vs ++ y ∷ []) x ≡ (contains vs x || (y == x))
unfolding contains
contains-append [] y x = ground arith
contains-append (v ∷ vs) y x = ground (arith, contains-append vs y x)

pub IsDistinct-append :
    (vs : List String) (y : String)
    → contains vs y ≡ false
    → IsDistinct vs
    → IsDistinct (vs ++ y ∷ [])
unfolding IsDistinct contains
IsDistinct-append [] y h d = (refl, tt)
IsDistinct-append (v ∷ vs) y h d =
    ground (arith, IsDistinct-append vs y, contains-append vs y v, eq_iff v y, eq_iff y v)

pub contains-add_unique :
    (vs : List String) (y x : String) → contains (add_unique vs y) x ≡ (contains vs x || (y == x))
contains-add_unique vs y x = elim (Bool-cases (contains vs y)) [
  | inl e ↦ elim (Bool-cases (y == x)) [
    | inl q ↦
        let there : contains vs x ≡ true = subst (λ z. contains vs z ≡ true) (==→≡ y x q) e in
        rw (e, q, there) refl
    | inr q ↦ rw (e, q) (ground arith)
  ]
  | inr e ↦ rw e (contains-append vs y x)
]

pub IsDistinct-add_unique :
    (vs : List String) (y : String) → IsDistinct vs → IsDistinct (add_unique vs y)
IsDistinct-add_unique vs y d = elim (Bool-cases (contains vs y)) [
  | inl e ↦ rw e d
  | inr e ↦ rw e (IsDistinct-append vs y e d)
]

pub IsDistinct-unique_from :
    (acc vs : List String) → IsDistinct acc → IsDistinct (unique_from acc vs)
unfolding unique_from
IsDistinct-unique_from acc [] d = d
IsDistinct-unique_from acc (v ∷ vs) d =
    IsDistinct-unique_from (add_unique acc v) vs (IsDistinct-add_unique acc v d)

pub contains-unique_from :
    (acc vs : List String) (x : String)
    → contains (unique_from acc vs) x ≡ (contains acc x || contains vs x)
unfolding unique_from contains
contains-unique_from acc [] x = ground arith
contains-unique_from acc (v ∷ vs) x =
    rw (contains-unique_from (add_unique acc v) vs x, contains-add_unique acc v x) (ground arith)

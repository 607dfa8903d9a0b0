-- ===== src/Common/Returns.antt =====
-- A body of early returns: the tests in order, each with what it returns.
use mathlib.Core.Path.{◌≡◌, refl}
use mathlib.Core.Bool.{Bool, true, false}
use mathlib.Core.List.{List, [], ◌∷◌}
use agent_machine.Common.Tests.{if◌then◌else◌}

module _ {A : Type 0} where
  -- `if test { return value } … return last`
  unfoldable pub first_return : List (Bool × A) → A → A
  first_return [] last = last
  first_return (g ∷ gs) last = if g.0 then g.1 else first_return gs last

  module _ {κ} (P : A → Type κ) where
    -- What holds of the value if its test is met, and of the rest if it is not, holds of the result.
    pub returns_or :
        (b : Bool) (x : A) (gs : List (Bool × A)) (last : A)
        → (b ≡ true → P x)
        → (b ≡ false → P (first_return gs last))
        → P (first_return ((b, x) ∷ gs) last)
    unfolding first_return
    returns_or true x gs last h k = h refl
    returns_or false x gs last h k = k refl

    pub returns_last : (last : A) → P last → P (first_return [] last)
    unfolding first_return
    returns_last last h = h

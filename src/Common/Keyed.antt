-- ===== src/Common/Keyed.antt =====
-- Reading a table by way of a sorted selection of its rows.
use Prim.Native.String.{String}
use mathlib.Core.Path.{◌≡◌, refl, subst}
use mathlib.Core.Bool.{Bool, false, ◌&&◌, ◌||◌}
use mathlib.Core.Logic.{inl, inr}
use mathlib.Core.Option.{Option, none, some}
use mathlib.Core.List.{List, [], ◌∷◌}
use native.Mathlib.Omega.{arith}
use text.Mathlib.Text.{◌==◌}
use text.Mathlib.TextEquality.{eq_iff}
use agent_machine.Common.Tests.{if◌then◌else◌, Bool-cases, ==→≡}
use agent_machine.Common.Lists.{any}
use agent_machine.Common.Table.{find, select_where, IsFresh, IsUnique, find_fresh}
use agent_machine.Common.Sort.{insert_by, sort_by, sort_by-All, select_where-All}

-- a row, if it passes the test
abbrev pub kept {ℓ} : {A : Type ℓ} → (A → Bool) → Option A → Option A
kept p none = none
kept p (some a) = if p a then some a else none

module _ {A : Type 0} (key : A → String) (before : A → A → Bool) where
  find-insert_by :
      (k : String) (x : A) (ys : List A)
      → IsFresh key (key x) ys
      → find key k (insert_by before x ys) ≡ (if key x == k then some x else find key k ys)
  unfolding find insert_by
  find-insert_by k x [] h = refl
  find-insert_by k x (y ∷ ys) h = elim (Bool-cases (before y x)) [
    | inl e ↦
        rw (e, find-insert_by k x ys h.1)
          (ground (arith, h.0, eq_iff (key y) (key x), eq_iff (key y) k, eq_iff (key x) k))
    | inr e ↦ rw e refl
  ]

  pub find-sort_by :
      (k : String) (xs : List A) → IsUnique key xs → find key k (sort_by before xs) ≡ find key k xs
  unfolding find sort_by
  find-sort_by k [] u = refl
  find-sort_by k (x ∷ xs) u =
      rw
        (
          find-insert_by k x (sort_by before xs)
              (sort_by-All before (λ r. (key r == key x) ≡ false) xs u.0),
          find-sort_by k xs u.1,
        )
        refl

module _ {A : Type 0} (key : A → String) (p : A → Bool) where
  pub find-select_where :
      (k : String) (xs : List A)
      → IsUnique key xs
      → find key k (select_where p xs) ≡ kept p (find key k xs)
  unfolding find select_where
  find-select_where k [] u = refl
  find-select_where k (x ∷ xs) u = elim (Bool-cases (p x)) [
    | inl e ↦ elim (Bool-cases (key x == k)) [
      | inl q ↦ rw (e, q, e) refl
      | inr q ↦ rw (e, q) (find-select_where k xs u.1)
    ]
    | inr e ↦ elim (Bool-cases (key x == k)) [
      | inl q ↦
          let fresh : IsFresh key k xs = subst (λ j. IsFresh key j xs) (==→≡ (key x) k q) u.0 in
          rw (e, q, e)
            (find_fresh key p k (select_where p xs)
              (select_where-All p (λ r. (key r == k) ≡ false) xs fresh))
      | inr q ↦ rw (e, q) (find-select_where k xs u.1)
    ]
  ]

  pub IsUnique-select_where : (xs : List A) → IsUnique key xs → IsUnique key (select_where p xs)
  unfolding select_where
  IsUnique-select_where [] u = tt
  IsUnique-select_where (x ∷ xs) u = elim (Bool-cases (p x)) [
    | inl e ↦
        rw e
          (select_where-All p (λ r. (key r == key x) ≡ false) xs u.0, IsUnique-select_where xs u.1)
    | inr e ↦ rw e (IsUnique-select_where xs u.1)
  ]

module _ {A : Type 0} (before : A → A → Bool) (p : A → Bool) where
  any-insert_by : (x : A) (ys : List A) → any p (insert_by before x ys) ≡ (p x || any p ys)
  unfolding insert_by
  any-insert_by x [] = refl
  any-insert_by x (y ∷ ys) = elim (Bool-cases (before y x)) [
    | inl e ↦ rw (e, any-insert_by x ys) (ground (arith))
    | inr e ↦ rw e refl
  ]

  pub any-sort_by : (xs : List A) → any p (sort_by before xs) ≡ any p xs
  unfolding sort_by
  any-sort_by [] = refl
  any-sort_by (x ∷ xs) = rw (any-insert_by x (sort_by before xs), any-sort_by xs) refl

module _ {A : Type 0} (q p : A → Bool) where
  pub any-select_where : (xs : List A) → any p (select_where q xs) ≡ any (λ x. q x && p x) xs
  unfolding select_where
  any-select_where [] = refl
  any-select_where (x ∷ xs) = elim (Bool-cases (q x)) [
    | inl e ↦ rw (e, any-select_where xs) refl
    | inr e ↦ rw (e, any-select_where xs) refl
  ]

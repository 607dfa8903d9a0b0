-- ===== src/Common/Sort.antt =====
-- Stable sorting by a strict order, as SQL's ORDER BY and Go's sort.SliceStable do it.
use mathlib.Core.Path.{◌≡◌, subst}
use mathlib.Core.Bool.{Bool, true, false}
use mathlib.Core.Logic.{inl, inr}
use mathlib.Core.Option.{some, none}
use mathlib.Core.List.{List, [], ◌∷◌, head?, Perm}
use mathlib.Core.List.Perm
use agent_machine.Common.Tests.{if◌then◌else◌, Bool-cases}
use agent_machine.Common.Lists.{All, All-map}
use agent_machine.Common.Table.{select_where}

module _ {A : Type 0} (before : A → A → Bool) where
  unfoldable pub insert_by : A → List A → List A
  insert_by x [] = x ∷ []
  insert_by x (y ∷ ys) = if before y x then y ∷ insert_by x ys else x ∷ y ∷ ys

  unfoldable pub sort_by : List A → List A
  unfolding insert_by
  sort_by [] = []
  sort_by (x ∷ xs) = insert_by x (sort_by xs)

  -- what a strict weak order obeys
  pub record IsOrder : Type 0 where
    pub asym : (x y : A) → before x y ≡ true → before y x ≡ false
    pub neg_trans : (x y z : A) → before y x ≡ false → before z y ≡ false → before z x ≡ false

  -- no element stands before an earlier one
  abbrev pub IsSorted : List A → Type 0
  IsSorted [] = Unit
  IsSorted (x ∷ xs) = All (λ y. before y x ≡ false) xs × IsSorted xs

  insert_by-All {κ} :
      (P : A → Type κ) (x : A) (ys : List A) → P x → All P ys → All P (insert_by x ys)
  unfolding insert_by
  insert_by-All P x [] p h = (p, tt)
  insert_by-All P x (y ∷ ys) p (q, h) = elim (Bool-cases (before y x)) [
    | inl e ↦ rw e (q, insert_by-All P x ys p h)
    | inr e ↦ rw e (p, (q, h))
  ]

  insert_by-All_inv {κ} :
      (P : A → Type κ) (x : A) (ys : List A) → All P (insert_by x ys) → P x × All P ys
  unfolding insert_by
  insert_by-All_inv P x [] h = h
  insert_by-All_inv P x (y ∷ ys) h = elim (Bool-cases (before y x)) [
    | inl e ↦
        let h' = rw (e, insert_by) at h in
        let (p, rest) = insert_by-All_inv P x ys h'.1 in (p, (h'.0, rest))
    | inr e ↦ rw (e, insert_by) at h
  ]

  pub sort_by-All {κ} : (P : A → Type κ) (xs : List A) → All P xs → All P (sort_by xs)
  unfolding sort_by
  sort_by-All P [] h = tt
  sort_by-All P (x ∷ xs) (p, h) = insert_by-All P x (sort_by xs) p (sort_by-All P xs h)

  pub sort_by-All_inv {κ} : (P : A → Type κ) (xs : List A) → All P (sort_by xs) → All P xs
  unfolding sort_by
  sort_by-All_inv P [] h = tt
  sort_by-All_inv P (x ∷ xs) h =
      let (p, rest) = insert_by-All_inv P x (sort_by xs) h in (p, sort_by-All_inv P xs rest)

  insert_by-perm : (x : A) (ys : List A) → Perm (insert_by x ys) (x ∷ ys)
  unfolding insert_by
  insert_by-perm x [] = Perm.refl _
  insert_by-perm x (y ∷ ys) = elim (Bool-cases (before y x)) [
    | inl e ↦ rw e (Perm.trans (Perm.cons y (insert_by-perm x ys)) (Perm.swap x y ys))
    | inr e ↦ rw e (Perm.refl _)
  ]

  -- Sorting loses and adds nothing.
  pub sort_by-perm : (xs : List A) → Perm (sort_by xs) xs
  unfolding sort_by
  sort_by-perm [] = Perm.refl _
  sort_by-perm (x ∷ xs) = Perm.trans (insert_by-perm x (sort_by xs)) (Perm.cons x (sort_by-perm xs))

  module _ (order : IsOrder) where
    insert_by-IsSorted : (x : A) (ys : List A) → IsSorted ys → IsSorted (insert_by x ys)
    unfolding insert_by
    insert_by-IsSorted x [] h = (tt, tt)
    insert_by-IsSorted x (y ∷ ys) (low, h) = elim (Bool-cases (before y x)) [
      | inl e ↦ rw e (
        insert_by-All (λ z. before z y ≡ false) x ys (order.asym y x e) low,
        insert_by-IsSorted x ys h,
      )
      | inr e ↦ rw e (
        (
          e,
          All-map (λ z. before z y ≡ false) (λ z. before z x ≡ false)
              (λ z h'. order.neg_trans x y z e h') ys low,
        ),
        (low, h),
      )
    ]

    -- Sorting puts no element before an earlier one.
    pub sort_by-IsSorted : (xs : List A) → IsSorted (sort_by xs)
    unfolding sort_by
    sort_by-IsSorted [] = tt
    sort_by-IsSorted (x ∷ xs) = insert_by-IsSorted x (sort_by xs) (sort_by-IsSorted xs)

    irrefl : (x : A) → before x x ≡ false
    irrefl x = elim (Bool-cases (before x x)) [ inl e ↦ order.asym x x e | inr e ↦ e ]

    sorted_head :
        (m : A) (l : List A) → head? l ≡ some m → IsSorted l → All (λ y. before y m ≡ false) l
    sorted_head m [] e h = tt
    sorted_head m (x ∷ xs) e h =
        subst (λ z. All (λ y. before y z ≡ false) (x ∷ xs)) (cc) (irrefl x, h.0)

    -- Nothing stands before the head of the sorted list.
    pub head-sort_by :
        (m : A) (xs : List A) → head? (sort_by xs) ≡ some m → All (λ y. before y m ≡ false) xs
    head-sort_by m xs e = sort_by-All_inv _ xs (sorted_head m (sort_by xs) e (sort_by-IsSorted xs))

module _ {κ} {A : Type 0} (p : A → Bool) (P : A → Type κ) where
  pub select_where-All : (xs : List A) → All P xs → All P (select_where p xs)
  unfolding select_where
  select_where-All [] h = tt
  select_where-All (x ∷ xs) (q, h) = elim (Bool-cases (p x)) [
    | inl e ↦ rw e (q, select_where-All xs h)
    | inr e ↦ rw e (select_where-All xs h)
  ]

  pub select_where-All_inv :
      (xs : List A) → All P (select_where p xs) → All (λ x. p x ≡ true → P x) xs
  unfolding select_where
  select_where-All_inv [] h = tt
  select_where-All_inv (x ∷ xs) h = elim (Bool-cases (p x)) [
    | inl e ↦ let h' = rw (e, select_where) at h in (λ _. h'.0, select_where-All_inv xs h'.1)
    | inr e ↦ let h' = rw (e, select_where) at h in (λ t. cc, select_where-All_inv xs h')
  ]

module _ {A : Type 0} (p : A → Bool) where
  pub select_where-passes : (xs : List A) → All (λ x. p x ≡ true) (select_where p xs)
  unfolding select_where
  select_where-passes [] = tt
  select_where-passes (x ∷ xs) = elim (Bool-cases (p x)) [
    | inl e ↦ rw e (e, select_where-passes xs)
    | inr e ↦ rw e (select_where-passes xs)
  ]

pub All-head {κ} :
    {A : Type 0} (P : A → Type κ) (m : A) (l : List A) → head? l ≡ some m → All P l → P m
All-head P m [] e h = cc
All-head P m (x ∷ xs) e h = let same : x ≡ m = cc in rw (← same) h.0

pub All-nothing {κ} : {A : Type 0} (P : A → Type κ) (l : List A) → head? l ≡ none → All P l
All-nothing P [] e = tt
All-nothing P (x ∷ xs) e = cc

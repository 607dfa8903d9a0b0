-- ===== src/Common/Table.antt =====
-- A database table: a list of rows, read and written as the program's SQL statements do.
use Prim.Native.Nat.{ℕ, suc}
use Prim.Native.String.{String}
use mathlib.Core.Path.{◌≡◌, refl, subst}
use mathlib.Core.Logic.{inl, inr}
use mathlib.Core.Bool.{Bool, false, ◌&&◌}
use mathlib.Core.Option.{Option, none, some}
use mathlib.Core.List.{List, [], ◌∷◌}
use native.Mathlib.Omega.{arith}
use text.Mathlib.Text.{◌==◌}
use text.Mathlib.TextEquality.{eq_iff}
use text.Mathlib.TextPositions.{eq_refl}
use agent_machine.Common.Tests.{if◌then◌else◌, Bool-cases, ==→≡, ==_sym}
use agent_machine.Common.Lists.{All}

module _ {A : Type 0} where
  -- UPDATE … SET … WHERE p
  unfoldable pub update_where : (A → Bool) → (A → A) → List A → List A
  update_where p f [] = []
  update_where p f (r ∷ rs) = (if p r then f r else r) ∷ update_where p f rs

  -- the number of rows that such a statement reports as affected
  unfoldable pub count_where : (A → Bool) → List A → ℕ
  count_where p [] = 0
  count_where p (r ∷ rs) = let n = count_where p rs in if p r then suc n else n

  -- SELECT … WHERE p, in the order of the table
  unfoldable pub select_where : (A → Bool) → List A → List A
  select_where p [] = []
  select_where p (r ∷ rs) = let rest = select_where p rs in if p r then r ∷ rest else rest

abbrev pub map_some {ℓ} : {A B : Type ℓ} → (A → B) → Option A → Option B
map_some f none = none
map_some f (some a) = some (f a)

abbrev pub passes {ℓ} : {A : Type ℓ} → (A → Bool) → Option A → Bool
passes p none = false
passes p (some a) = p a

module _ {A : Type 0} (key : A → String) where
  -- SELECT … WHERE key = ?, for a UNIQUE key
  unfoldable pub find : String → List A → Option A
  find k [] = none
  find k (r ∷ rs) = if key r == k then some r else find k rs

  -- INSERT … ON CONFLICT(key) DO UPDATE SET …: `merge` gives the row that a conflict leaves
  unfoldable pub upsert : (A → A → A) → A → List A → List A
  upsert merge new [] = new ∷ []
  upsert merge new (r ∷ rs) = if key r == key new then merge r new ∷ rs else r ∷ upsert merge new rs

  abbrev pub IsFresh : String → List A → Type 0
  IsFresh k = All (λ r. (key r == k) ≡ false)

  -- the UNIQUE constraint of the key's column
  abbrev pub IsUnique : List A → Type 0
  IsUnique [] = Unit
  IsUnique (r ∷ rs) = IsFresh (key r) rs × IsUnique rs

module _ {A : Type 0} (key : A → String) (p : A → Bool) (f : A → A)
    (same : (r : A) → key (f r) ≡ key r) where
  pub find-update_where :
      (k : String) (rs : List A)
      → find key k (update_where p f rs) ≡ map_some (λ r. if p r then f r else r) (find key k rs)
  unfolding find update_where
  find-update_where k [] = refl
  find-update_where k (r ∷ rs) = ground (arith, same r, find-update_where k rs)

  IsFresh-update_where :
      (k : String) (rs : List A) → IsFresh key k rs → IsFresh key k (update_where p f rs)
  unfolding update_where
  IsFresh-update_where k [] h = tt
  IsFresh-update_where k (r ∷ rs) h = ground (arith, same r, IsFresh-update_where k rs h.1)

  pub IsUnique-update_where : (rs : List A) → IsUnique key rs → IsUnique key (update_where p f rs)
  unfolding update_where
  IsUnique-update_where [] h = tt
  IsUnique-update_where (r ∷ rs) h =
      ground (arith, same r, IsFresh-update_where (key r) rs h.0, IsUnique-update_where rs h.1)

abbrev pub merged {ℓ} : {A : Type ℓ} → (A → A → A) → A → Option A → A
merged merge new none = new
merged merge new (some old) = merge old new

module _ {A : Type 0} (key : A → String) (merge : A → A → A) (new : A)
    (same : (r : A) → key (merge r new) ≡ key r) where
  pub find-upsert :
      (k : String) (rs : List A)
      → find key k (upsert key merge new rs)
        ≡ (if key new == k then some (merged merge new (find key (key new) rs)) else find key k rs)
  unfolding find upsert
  find-upsert k [] = refl
  find-upsert k (r ∷ rs) = ground (
    arith,
    same r,
    find-upsert k rs,
    eq_iff (key r) (key new),
    eq_iff (key r) k,
    eq_iff (key new) k,
  )

  IsFresh-upsert :
      (k : String) (rs : List A)
      → IsFresh key k rs
      → (key new == k) ≡ false
      → IsFresh key k (upsert key merge new rs)
  unfolding upsert
  IsFresh-upsert k [] h e = (e, tt)
  IsFresh-upsert k (r ∷ rs) h e = ground (arith, same r, IsFresh-upsert k rs h.1 e)

  pub IsUnique-upsert : (rs : List A) → IsUnique key rs → IsUnique key (upsert key merge new rs)
  unfolding upsert
  IsUnique-upsert [] h = (tt, tt)
  IsUnique-upsert (r ∷ rs) h = ground (
    arith,
    same r,
    IsFresh-upsert (key r) rs h.0,
    IsUnique-upsert rs h.1,
    ==_sym (key r) (key new),
  )

module _ {A : Type 0} (key : A → String) (p : A → Bool) where
  count_fresh :
      (k : String) (rs : List A) → IsFresh key k rs → count_where (λ r. key r == k && p r) rs ≡ 0
  unfolding count_where
  count_fresh k [] h = refl
  count_fresh k (r ∷ rs) h = ground (arith, count_fresh k rs h.1)

  pub find_fresh : (k : String) (rs : List A) → IsFresh key k rs → find key k rs ≡ none
  unfolding find
  find_fresh k [] h = refl
  find_fresh k (r ∷ rs) h = ground (arith, find_fresh k rs h.1)

  -- A statement on one key affects one row or none, as the row of that key says.
  pub count-keyed :
      (k : String) (rs : List A)
      → IsUnique key rs
      → count_where (λ r. key r == k && p r) rs ≡ (if passes p (find key k rs) then 1 else 0)
  unfolding count_where find
  count-keyed k [] h = refl
  count-keyed k (r ∷ rs) h = elim (Bool-cases (key r == k)) [
    | inl e ↦
        let fresh = subst (λ j. IsFresh key j rs) (==→≡ (key r) k e) h.0 in
        ground (arith, count_fresh k rs fresh)
    | inr e ↦ ground (arith, count-keyed k rs h.1)
  ]

-- what a statement on one key leaves of the row of that key
abbrev pub applied {ℓ} : {A : Type ℓ} → (A → Bool) → (A → A) → Option A → Option A
applied p f none = none
applied p f (some a) = some (if p a then f a else a)

module _ {A : Type 0} (key : A → String) (p : A → Bool) (f : A → A)
    (same : (r : A) → key (f r) ≡ key r) where
  pub find-update_keyed :
      (k j : String) (rs : List A)
      → find key j (update_where (λ r. key r == k && p r) f rs)
        ≡ (if k == j then applied p f (find key k rs) else find key j rs)
  unfolding find update_where
  find-update_keyed k j [] = ground arith
  find-update_keyed k j (r ∷ rs) =
      ground
        (arith, same r, find-update_keyed k j rs, eq_iff (key r) k, eq_iff (key r) j, eq_iff k j)

module _ {A : Type 0} (key : A → String) where
  -- In a table with a UNIQUE key each row is found by its key.
  pub All-found : (rs : List A) → IsUnique key rs → All (λ r. find key (key r) rs ≡ some r) rs
  unfolding find
  All-found [] u = tt
  All-found (r ∷ rs) (fresh, u) = (rw eq_refl, later rs fresh (All-found rs u))
    where
      later :
          (l : List A)
          → IsFresh key (key r) l
          → All (λ s. find key (key s) rs ≡ some s) l
          → All (λ s. find key (key s) (r ∷ rs) ≡ some s) l
      later [] f h = tt
      later (s ∷ l) (f, fs) (e, h) = (rw (==_sym (key r) (key s), f) e, later l fs h)

module _ {A : Type 0} (p : A → Bool) (f : A → A) where
  -- A statement that affects no row changes nothing.
  pub update_where_none : (rs : List A) → count_where p rs ≡ 0 → update_where p f rs ≡ rs
  unfolding update_where count_where
  update_where_none [] h = refl
  update_where_none (r ∷ rs) h = ground (arith, update_where_none rs)

module _ {A : Type 0} (key : A → String) where
  pub find-key : (k : String) (rs : List A) (r : A) → find key k rs ≡ some r → key r ≡ k
  unfolding find
  find-key k [] r h = cc
  find-key k (x ∷ rs) r h = ground (arith, find-key k rs r, eq_iff (key x) k)

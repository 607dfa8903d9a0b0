-- ===== src/Gate/Laws.antt =====
-- The codes of a gate's result, and what Block and ReconciliationNeeded make of it.
use mathlib.Core.Path.{subst}
use agent_machine.Common.{
  String, ◌≡◌, refl, arith, Bool, true, false, not, ◌&&◌, ◌||◌, List, [], ◌∷◌, ◌++◌, ◌==◌, inl, inr,
  any, Bool-cases, ==→≡, trim_space,
}
use agent_machine.Common.Distinct.{contains, IsDistinct, contains-append, IsDistinct-append}
use agent_machine.Gate.{Blocker, Result, codes_from, codes}

codes_from-IsDistinct :
    (found : List String) (bs : List Blocker) → IsDistinct found → IsDistinct (codes_from found bs)
unfolding codes_from
codes_from-IsDistinct found [] d = d
codes_from-IsDistinct found (b ∷ bs) d =
    let code = trim_space b.code in
    elim (Bool-cases (code == "" || contains found code)) [
      | inl e ↦ rw e (codes_from-IsDistinct found bs d)
      | inr e ↦ rw e (
          codes_from-IsDistinct (found ++ code ∷ []) bs
            (IsDistinct-append found code (ground arith) d))
    ]

abbrev pub has_code : List Blocker → String → Bool
has_code bs x = any (λ b. trim_space b.code == x) bs

skipped :
    (found : List String) (code x : String)
    → (code == "" || contains found code) ≡ true
    → (code == x) ≡ true
    → (x == "") ≡ false
    → contains found x ≡ true
skipped found code x e q n =
    let h = subst (λ z. (z == "" || contains found z) ≡ true) (==→≡ code x q) e in ground (arith, h)

contains-codes_from :
    (found : List String) (bs : List Blocker) (x : String)
    → (x == "") ≡ false
    → contains (codes_from found bs) x ≡ (contains found x || has_code bs x)
unfolding codes_from
contains-codes_from found [] x n = ground arith
contains-codes_from found (b ∷ bs) x n =
    let code = trim_space b.code in
    elim (Bool-cases (code == "" || contains found code)) [
      | inl e ↦
          rw (e, contains-codes_from found bs x n)
            (elim (Bool-cases (code == x)) [
              | inl q ↦ rw (q, skipped found code x e q n) refl
              | inr q ↦ rw q (ground arith)
            ])
      | inr e ↦
          rw (e, contains-codes_from (found ++ code ∷ []) bs x n, contains-append found code x)
            (ground arith)
    ]

no_empty :
    (found : List String) (bs : List Blocker)
    → contains found "" ≡ false
    → contains (codes_from found bs) "" ≡ false
unfolding codes_from
no_empty found [] h = h
no_empty found (b ∷ bs) h =
    let code = trim_space b.code in
    elim (Bool-cases (code == "" || contains found code)) [
      | inl e ↦ rw e (no_empty found bs h)
      | inr e ↦
          rw e
            (no_empty (found ++ code ∷ []) bs (rw (contains-append found code "") (ground arith)))
    ]

-- Codes lists no code twice, and lists exactly the codes of the blockers that are not blank, each less
-- the spaces around it.
pub codes_lem :
    (r : Result) (x : String)
    → IsDistinct (codes r) × (contains (codes r) x ≡ (not (x == "") && has_code r.blockers x))
unfolding codes contains
codes_lem r x = (
  codes_from-IsDistinct [] r.blockers (unfold IsDistinct in tt),
  elim (Bool-cases (x == "")) [
    | inl e ↦ rw (e, ==→≡ x "" e) (no_empty [] r.blockers refl)
    | inr e ↦ rw (e, contains-codes_from [] r.blockers x e) refl
  ],
)

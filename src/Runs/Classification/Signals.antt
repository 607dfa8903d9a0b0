-- ===== src/Runs/Classification/Signals.antt =====
-- The friction signals of a run: none is listed twice, and when each of the two that the other
-- fields read is listed.
use agent_machine.Common.{
  String, ◌≡◌, refl, arith, Bool, true, false, ◌||◌, List, [], ◌∷◌, ◌==◌, inl, inr, Bool-cases,
  ==→≡, if◌then◌else◌, lower_contains,
}
use agent_machine.Common.Distinct.{
  contains, add_unique, IsDistinct, IsDistinct-add_unique, contains-add_unique,
  IsDistinct-unique_from,
}
use agent_machine.Runs.Classification.{
  Input, add_signals, signal_tests, blockers, is_cut_off, is_operational_failure,
  classify_friction_signals, classify_blocked_by,
}

abbrev named : String → List (Bool × String) → Bool
named x [] = false
named x ((holds, signal) ∷ tests) =
    let rest = named x tests in if signal == x then holds || rest else rest

contains-add_signals :
    (x : String) (vs : List String) (tests : List (Bool × String))
    → contains (add_signals vs tests) x ≡ (contains vs x || named x tests)
unfolding add_signals
contains-add_signals x vs [] = ground arith
contains-add_signals x vs ((true, signal) ∷ tests) =
    rw (contains-add_signals x (add_unique vs signal) tests, contains-add_unique vs signal x)
      (ground arith)
contains-add_signals x vs ((false, signal) ∷ tests) =
    rw (contains-add_signals x vs tests) (ground arith)

IsDistinct-add_signals :
    (vs : List String) (tests : List (Bool × String))
    → IsDistinct vs
    → IsDistinct (add_signals vs tests)
unfolding add_signals
IsDistinct-add_signals vs [] d = d
IsDistinct-add_signals vs ((true, signal) ∷ tests) d =
    IsDistinct-add_signals (add_unique vs signal) tests (IsDistinct-add_unique vs signal d)
IsDistinct-add_signals vs ((false, signal) ∷ tests) d = IsDistinct-add_signals vs tests d

no_texts : IsDistinct []
unfolding IsDistinct
no_texts = tt

no_member : (x : String) → contains [] x ≡ false
unfolding contains
no_member x = refl

cut_off_other :
    (status x : String)
    → is_cut_off x ≡ false
    → (rest : Bool) → (if status == x then is_cut_off status || rest else rest) ≡ rest
cut_off_other status x h rest = elim (Bool-cases (status == x)) [
  | inl e ↦ let off : is_cut_off status ≡ false = rw (==→≡ status x e) h in rw (e, off) refl
  | inr e ↦ rw e refl
]

not_cut_off :
    (is_cut_off "operational_failure" ≡ false) × (is_cut_off "out_of_scope_diff_findings" ≡ false)
unfolding is_cut_off
not_cut_off = (refl, refl)

or_false : (b : Bool) → (b || false) ≡ b
or_false true = refl
or_false false = refl

-- Neither the friction signals nor the blockers of a run list a text twice.
pub classify-IsDistinct :
    (input : Input)
    → IsDistinct (classify_friction_signals input) × IsDistinct (classify_blocked_by input)
unfolding classify_friction_signals classify_blocked_by
classify-IsDistinct input = (
  IsDistinct-add_signals [] (signal_tests input) no_texts,
  IsDistinct-unique_from [] (blockers input) no_texts,
)

-- The signal operational_failure is listed exactly for a status of failure, and out_of_scope_diff_findings
-- exactly where the findings of the review name one, in upper or lower case.
pub classify_friction_signals_lem :
    (input : Input)
    → (contains (classify_friction_signals input) "operational_failure"
        ≡ is_operational_failure input.run.status)
      × (contains (classify_friction_signals input) "out_of_scope_diff_findings" ≡ (
          lower_contains input.run.review_findings "out-of-scope"
          || lower_contains input.run.review_findings "scope drift"))
unfolding classify_friction_signals
classify_friction_signals_lem input =
    let tests = signal_tests input in
    let run = input.run in
    let scope =
      lower_contains run.review_findings "out-of-scope"
      || lower_contains run.review_findings "scope drift" in
    (
      rw
          (
            contains-add_signals "operational_failure" [] tests,
            no_member "operational_failure",
            cut_off_other run.status "operational_failure" not_cut_off.0 false,
          )
          (or_false (is_operational_failure run.status)),
      rw
          (
            contains-add_signals "out_of_scope_diff_findings" [] tests,
            no_member "out_of_scope_diff_findings",
            cut_off_other run.status "out_of_scope_diff_findings" not_cut_off.1 (scope || false),
          )
          (or_false scope),
    )

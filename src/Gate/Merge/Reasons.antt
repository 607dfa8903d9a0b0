-- ===== src/Gate/Merge/Reasons.antt =====
-- The merge gate gives a reason exactly where it blocks.
use Prim.Native.Char.{Char, code}
use Prim.Native.String.{◌++◌}
use Prim.Native.String.append
use agent_machine.Common.{
  String, ◌≡◌, refl, ap, arith, true, false, ◌&&◌, List, [], ◌∷◌, ◌==◌, inl, inr, Bool-cases, ==→≡,
  is_empty, equal_fold, trim_space, trim_left, trim_right, is_space,
}
use mathlib.Core.Path.{subst}
use agent_machine.Common.Table.{select_where}
use agent_machine.Gate.{reason, is_blank}
use agent_machine.Gate.Merge.{
  StatusCheck, PullRequest, is_check_run, is_status_context, run_failed, context_failed,
  is_conflicting, conflict_reason, first_block_reason, checks_block_reason, evaluate_pull_request,
  new_decision, block_merge,
}

cons-nonempty : (c : Char) (s : String) → (String.◌∷◌ c s == "") ≡ false
cons-nonempty c s = elim (Bool-cases (String.◌∷◌ c s == "")) [
  | inl e ↦ absurd (ground (arith, ap is_empty (==→≡ (String.◌∷◌ c s) "" e)))
  | inr e ↦ e
]

-- A text that begins with another character than a space is not blank.
begins-not_blank :
    (c : Char) (s : String) → is_space (code c) ≡ false → is_blank (String.◌∷◌ c s) ≡ false
unfolding trim_space trim_left trim_right
begins-not_blank c s h = elim (Bool-cases (is_empty (trim_right s) && is_space (code c))) [
  | inl e ↦ absurd (ground (arith, e, h))
  | inr e ↦ rw (h, e) (cons-nonempty c (trim_right s))
]

append-not_blank :
    (c : Char) (s t : String) → is_space (code c) ≡ false → is_blank (String.◌∷◌ c s ++ t) ≡ false
append-not_blank c s t h =
    let split : String.◌∷◌ c s ++ t ≡ String.◌∷◌ c (s ++ t) = λ i. append.cons c s t i in
    rw split (begins-not_blank c (s ++ t) h)

not_blank-not_empty : (s : String) → is_blank s ≡ false → (s == "") ≡ false
unfolding trim_space trim_left trim_right
not_blank-not_empty s h = elim (Bool-cases (s == "")) [
  | inl e ↦
      let blank : is_blank "" ≡ false = subst (λ z. is_blank z ≡ false) (==→≡ s "" e) h in
      absurd (ground (arith, blank))
  | inr e ↦ e
]

-- what the gate says of why it blocks
reason-block_merge :
    (code why : String) (subject : String)
    → is_blank why ≡ false
    → (reason (block_merge code why (new_decision subject)).result == "") ≡ false
unfolding reason select_where
reason-block_merge code why subject h = rw h (not_blank-not_empty why h)

not_blank_reason : is_blank "no status checks were reported by GitHub" ≡ false
unfolding trim_space trim_left trim_right is_space
not_blank_reason = refl

passed_reason : (subject : String) → (reason (new_decision subject).result == "") ≡ true
unfolding reason select_where trim_space trim_left trim_right
passed_reason subject = refl

conflict_not_blank :
    (pr : PullRequest) → (conflict_reason pr == "") ≡ false → is_blank (conflict_reason pr) ≡ false
unfolding conflict_reason is_space
conflict_not_blank pr h = elim (Bool-cases (is_conflicting pr)) [
  | inl e ↦ rw e (append-not_blank "G" "itHub reports mergeable=" _ refl)
  | inr e ↦ let empty = rw (e, conflict_reason) at h in absurd (ground (arith, empty))
]

module _ (quote : String → String) where
  first_not_blank :
      (checks : List StatusCheck)
      → (first_block_reason quote checks == "") ≡ false
      → is_blank (first_block_reason quote checks) ≡ false
  unfolding first_block_reason is_space
  first_not_blank [] h = cc
  first_not_blank (check ∷ checks) h = elim (Bool-cases (is_check_run check)) [
    | inl e ↦ elim (Bool-cases (run_failed check)) [
      | inl f ↦ rw (e, f) (append-not_blank "c" "heck run " _ refl)
      | inr f ↦ rw (e, f) (first_not_blank checks (rw (e, f, first_block_reason) at h))
    ]
    | inr e ↦ elim (Bool-cases (is_status_context check)) [
      | inl c ↦ elim (Bool-cases (context_failed check)) [
        | inl f ↦ rw (e, c, f) (append-not_blank "s" "tatus context " _ refl)
        | inr f ↦ rw (e, c, f) (first_not_blank checks (rw (e, c, f, first_block_reason) at h))
      ]
      | inr c ↦ rw (e, c) (append-not_blank "u" "nknown status check shape " _ refl)
    ]
  ]

  checks_not_blank :
      (checks : List StatusCheck)
      → (checks_block_reason quote checks == "") ≡ false
      → is_blank (checks_block_reason quote checks) ≡ false
  unfolding checks_block_reason
  checks_not_blank [] h = not_blank_reason
  checks_not_blank (check ∷ checks) h = first_not_blank (check ∷ checks) h

  -- The merge gate gives a reason exactly if it does not let the pull request through.
  pub evaluate_pull_request-reason :
      (pr : PullRequest)
      → (reason (evaluate_pull_request quote pr).result == "")
        ≡ (evaluate_pull_request quote pr).eligible
  unfolding evaluate_pull_request is_space
  evaluate_pull_request-reason pr = elim (Bool-cases (conflict_reason pr == "")) [
    | inl e ↦ elim (Bool-cases (equal_fold pr.mergeable "MERGEABLE")) [
      | inl m ↦ elim (Bool-cases (checks_block_reason quote pr.status_checks == "")) [
        | inl k ↦ rw (e, m, k) (passed_reason pr.subject)
        | inr k ↦
            rw (e, m, k) (reason-block_merge _ _ pr.subject (checks_not_blank pr.status_checks k))
      ]
      | inr m ↦
          rw (e, m)
            (reason-block_merge _ _ pr.subject
              (append-not_blank "G" "itHub reports mergeable=" _ refl))
    ]
    | inr e ↦ rw e (reason-block_merge _ _ pr.subject (conflict_not_blank pr e))
  ]

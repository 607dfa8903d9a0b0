-- ===== src/Linear/Payload.antt =====
-- Normalising a transition's payload.
use Prim.Native.Char.{code}
use mathlib.Core.Path.{subst}
use agent_machine.Common.{
  String, ◌≡◌, refl, ap, ◌∙◌, arith, Bool, true, false, not, ◌&&◌, inl, inr, Bool-cases, ◌==◌,
  trim_space, trim_left, trim_right, is_space, is_empty, trim_right-trim_right, if◌then◌else◌,
}
use agent_machine.State.{Result, ok, err, required, invalid_payload}
use agent_machine.Linear.{TransitionPayload, trimmed, validate, normalize_transition_payload}

trim_left-trim_right :
    (s : String) → trim_left (trim_right (trim_left s)) ≡ trim_right (trim_left s)
unfolding trim_left trim_right
trim_left-trim_right String.[] = refl
trim_left-trim_right (String.◌∷◌ c s) = elim (Bool-cases (is_space (code c))) [
  | inl e ↦ rw e (trim_left-trim_right s)
  | inr e ↦ elim (Bool-cases (is_empty (trim_right s) && is_space (code c))) [
    | inl y ↦ absurd (ground (arith, e, y))
    | inr n ↦ rw (e, n, e) refl
  ]
]

trim_space-trim_space : (s : String) → trim_space (trim_space s) ≡ trim_space s
unfolding trim_space
trim_space-trim_space s =
    ap trim_right (trim_left-trim_right s) ∙ trim_right-trim_right (trim_left s)

-- the defaulted kind
kind-trimmed :
    (k : String)
    → let d = if trim_space k == "" then "transition" else trim_space k in
      (if trim_space d == "" then "transition" else trim_space d) ≡ d
unfolding trim_space trim_left trim_right is_space
kind-trimmed k = elim (Bool-cases (trim_space k == "")) [
  | inl e ↦ rw e refl
  | inr e ↦ rw (e, trim_space-trim_space k, e) refl
]

trimmed-trimmed : (p : TransitionPayload) → trimmed (trimmed p) ≡ trimmed p
trimmed-trimmed p =
    rw
      (
        kind-trimmed p.kind,
        trim_space-trim_space p.issue_id,
        trim_space-trim_space p.issue_identifier,
        trim_space-trim_space p.issue_title,
        trim_space-trim_space p.issue_url,
        trim_space-trim_space p.team_id,
        trim_space-trim_space p.target_state,
      )
      refl

after_tests :
    (a b c d e : Bool) (p q : TransitionPayload)
    → let r : Result TransitionPayload =
        if a
        then err invalid_payload
        else if b
        then err (required "issue_id")
        else if c
        then err (required "issue_identifier")
        else if d
        then err (required "team_id")
        else if e
        then err (required "target_state")
        else ok p in
      r ≡ ok q → (p ≡ q) × (r ≡ ok p)
after_tests true b c d e p q h = cc
after_tests false true c d e p q h = cc
after_tests false false true d e p q h = cc
after_tests false false false true e p q h = cc
after_tests false false false false true p q h = cc
after_tests false false false false false p q h = (cc, refl)

-- a payload that passes is not changed by the tests
validate-ok : (p q : TransitionPayload) → validate p ≡ ok q → (p ≡ q) × (validate p ≡ ok p)
unfolding validate
validate-ok p q h =
    after_tests (not (p.kind == "transition")) (p.issue_id == "") (p.issue_identifier == "")
      (p.team_id == "") (p.target_state == "") p q h

-- A payload that was normalised is what it normalises to: a second pass, as the decoding of a queued task
-- makes it, accepts it and changes nothing.
pub normalize_transition_payload_idem :
    (p q : TransitionPayload)
    → normalize_transition_payload p ≡ ok q
    → normalize_transition_payload q ≡ ok q
unfolding normalize_transition_payload
normalize_transition_payload_idem p q h =
    let (same, passes) = validate-ok (trimmed p) q h in
    subst (λ z. normalize_transition_payload z ≡ ok z) same
      (ap validate (trimmed-trimmed p) ∙ passes)

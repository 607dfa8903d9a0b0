-- ===== src/Candidates/Retry.antt =====
-- Whether a candidate's retry may run now, retryBackoffDecision of candidate_selection.go.
use agent_machine.Common.{
  ℕ, ◌+◌, ◌-◌, ◌^◌, ◌≤◌, ◌<◌, String, ◌≡◌, refl, arith, Bool, true, false, not, ◌&&◌, ◌||◌, Option,
  none, some, [], ◌∷◌, ◌==◌, ltb, leb, eqb, inl, inr, Bool-cases, ==→≡, concat, if◌then◌else◌,
}
use agent_machine.Common.Table.{passes}
use agent_machine.State.{Time, is_zero}
use agent_machine.Candidates.{retry_backoff_duration, second}
use agent_machine.Candidates.Backoff.{
  doubled, smaller, half_range, retry_backoff_duration_lem, no_backoff, smaller_between,
}

-- The facts of the store on the issue's last retry. A read that fails or finds none is `none`.
pub record RetryFacts : Type 0 where
  pub retry_next_state : String
  pub retry_count : ℕ
  pub retry_decided_at : Time

pub record RetryDecision : Type 0 where
  pub runnable : Bool
  pub reason : String
  pub next_state : String

abbrev pub no_decision : RetryDecision
no_decision = record { runnable = false; reason = ""; next_state = "" }

-- backoff <= 0, on an int64 as its 64 bits
abbrev pub is_not_positive : ℕ → Bool
is_not_positive d = eqb d 0 || not (ltb d (2 ^ 63))

-- the returns that depend on the next state of the last retry
abbrev pub retry_outcome : String → Bool → String → RetryDecision × Bool
retry_outcome next_state elapsed until =
    if next_state == ""
    then (no_decision, false)
    else if not (next_state == "retry_after_backoff")
    then (
      record { runnable = false; reason = "terminal_or_no_retry"; next_state = next_state },
      true,
    )
    else if elapsed
    then (
      record { runnable = true; reason = "retry_backoff_elapsed"; next_state = next_state },
      true,
    )
    else (record { runnable = false; reason = until; next_state = next_state }, true)

by_state :
    (has_store final : Bool) (d : RetryDecision × Bool) (r : Bool)
    → d.0.runnable ≡ r
    → (if not has_store
        then (no_decision, false)
        else if final
        then (
          record { runnable = false; reason = "terminal_or_needs_info_state"; next_state = "" },
          true,
        )
        else d).0.runnable
      ≡ (has_store && (not final && r))
by_state true true d r h = refl
by_state true false d r h = h
by_state false f d r h = refl

by_next_state :
    (next_state : String) (elapsed : Bool) (until : String)
    → (retry_outcome next_state elapsed until).0.runnable
      ≡ (next_state == "retry_after_backoff" && elapsed)
by_next_state next_state elapsed until = elim (Bool-cases (next_state == "retry_after_backoff")) [
  | inl e ↦ elim (Bool-cases elapsed) [
    | inl y ↦ rw (==→≡ next_state "retry_after_backoff" e, y) refl
    | inr n ↦ rw (==→≡ next_state "retry_after_backoff" e, n) refl
  ]
  | inr e ↦ elim (Bool-cases (next_state == "")) [ inl y ↦ rw (e, y) refl | inr n ↦ rw (e, n) refl ]
]

module _ (format_time : Time → String) (needs_info_state done_state : String) (max : ℕ)
    (now : Time) where
  -- the decision on the facts of the store, with whether there is one
  unfoldable pub decide_retry : Option RetryFacts → RetryDecision × Bool
  unfolding retry_backoff_duration
  decide_retry none = (no_decision, false)
  decide_retry (some facts) =
      let backoff = retry_backoff_duration facts.retry_count max in
      let until = facts.retry_decided_at + backoff in
      retry_outcome facts.retry_next_state
        (is_not_positive backoff || is_zero facts.retry_decided_at || not (ltb now until))
        (concat ("retry_backoff_until_" ∷ format_time until ∷ []))

  unfoldable pub retry_backoff_decision : Bool → String → Option RetryFacts → RetryDecision × Bool
  unfolding decide_retry
  retry_backoff_decision has_store state facts =
      if not has_store
      then (no_decision, false)
      else if state == needs_info_state || state == done_state
      then (
        record { runnable = false; reason = "terminal_or_needs_info_state"; next_state = "" },
        true,
      )
      else decide_retry facts

  -- the wait is over
  abbrev pub is_elapsed : RetryFacts → Bool
  is_elapsed facts =
      eqb max 0
      || is_zero facts.retry_decided_at
      || leb (facts.retry_decided_at + smaller (doubled (facts.retry_count - 1) second) max) now

  waiting :
      (wait decided : ℕ)
      → wait ≤ half_range
      → 0 < wait
      → (is_not_positive wait || is_zero decided || not (ltb now (decided + wait)))
        ≡ (is_zero decided || leb (decided + wait) now)
  waiting wait decided low positive = ground (arith, low, positive)

  backoff_elapsed :
      (facts : RetryFacts)
      → max ≤ half_range
      → let backoff = retry_backoff_duration facts.retry_count max in
        (is_not_positive backoff
          || is_zero facts.retry_decided_at
          || not (ltb now (facts.retry_decided_at + backoff)))
        ≡ is_elapsed facts
  backoff_elapsed facts bound = elim (Bool-cases (eqb max 0)) [
    | inl e ↦ rw (no_backoff facts.retry_count max e, e) refl
    | inr e ↦
        let wait = smaller (doubled (facts.retry_count - 1) second) max in
        let positive : 0 < max = ground (arith, e) in
        let between = smaller_between (facts.retry_count - 1) max positive in
        rw (retry_backoff_duration_lem facts.retry_count max positive bound, e)
          (waiting wait facts.retry_decided_at (omega (arith, between, bound)) between.0)
  ]

  decide_retry-runnable :
      (facts : Option RetryFacts)
      → max ≤ half_range
      → (decide_retry facts).0.runnable
        ≡ passes (λ f. f.retry_next_state == "retry_after_backoff" && is_elapsed f) facts
  unfolding decide_retry
  decide_retry-runnable none bound = refl
  decide_retry-runnable (some facts) bound = rw (backoff_elapsed facts bound) (
      by_next_state facts.retry_next_state (is_elapsed facts) (
        concat (
          "retry_backoff_until_"
          ∷ format_time (facts.retry_decided_at + retry_backoff_duration facts.retry_count max)
          ∷ [])))

  -- A retry may run exactly if the store is open, the issue is in no final state, its last attempt is to
  -- be retried after a back-off, and the back-off is none or is over. The maximum is at most 2 ^ 62.
  pub retry_backoff_decision-runnable :
      (has_store : Bool) (state : String) (facts : Option RetryFacts)
      → max ≤ half_range
      → (retry_backoff_decision has_store state facts).0.runnable ≡ (
          has_store
          && (not (state == needs_info_state || state == done_state)
              && passes (λ f. f.retry_next_state == "retry_after_backoff" && is_elapsed f) facts))
  unfolding retry_backoff_decision
  retry_backoff_decision-runnable has_store state facts bound =
      let rest = decide_retry-runnable facts bound in
      by_state has_store (state == needs_info_state || state == done_state) (decide_retry facts) _
        rest

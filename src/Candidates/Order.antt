-- ===== src/Candidates/Order.antt =====
-- The candidates are reordered and none is lost, and the ready and safe ones come first.
use mathlib.Core.List.{Perm}
use mathlib.Core.Path.{subst, fun_ext}
use agent_machine.Common.{
  ℕ, String, ◌≡◌, arith, Bool, true, false, not, ◌&&◌, ◌||◌, Option, List, ◌==◌, ltb, eqb,
  if◌then◌else◌,
}
use agent_machine.Common.Sort.{IsOrder, IsSorted, sort_by-perm, sort_by-IsSorted}
use agent_machine.Candidates.{
  Issue, CandidateKey, candidate_sort_key, goes_before, order_candidates, key_before, has_label,
  safety_rank, time_or_far_future,
}

key_before-asym :
    (l r : CandidateKey) (s t : String) (lt : String → String → Bool)
    → (lt s t ≡ true → lt t s ≡ false)
    → key_before l r s t lt ≡ true
    → key_before r l t s lt ≡ false
key_before-asym l r s t lt h e = ground (arith, h, e)

key_before-neg_trans :
    (k l m : CandidateKey) (s t u : String) (lt : String → String → Bool)
    → (lt t s ≡ false → lt u t ≡ false → lt u s ≡ false)
    → key_before l k t s lt ≡ false
    → key_before m l u t lt ≡ false
    → key_before m k u s lt ≡ false
key_before-neg_trans k l m s t u lt h e f = ground (arith, h, e, f)

-- the labels of a safety issue, and those of a light one
abbrev pub is_safety : Issue → Bool
is_safety c = has_label c "runner-safety" || has_label c "harness"

abbrev pub is_light : Issue → Bool
is_light c = has_label c "docs-only" || has_label c "low-risk"

-- of two issues, each by whether it is a safety issue and a light one
abbrev pub is_safer : Bool → Bool → Bool → Bool → Bool
is_safer safety light safety' light' =
    (safety && not safety') || (not safety && not safety' && light && not light')

abbrev pub is_as_safe : Bool → Bool → Bool → Bool → Bool
is_as_safe safety light safety' light' =
    (safety && safety')
    || (not safety && not safety' && ((light && light') || (not light && not light')))

-- the rest of the comparison, where two issues rank alike
abbrev pub else_by : Bool → Bool → Bool → Bool
else_by before alike rest = before || (alike && rest)

-- no priority comes after all those below 99
abbrev pub urgency : Issue → ℕ
urgency c = if eqb c.priority 0 then 99 else c.priority

ranked :
    (ready ready' safety light safety' light' : Bool) (p p' a a' : ℕ) (s s' : String)
    (lt : String → String → Bool)
    → key_before
        (record {
          state_rank = if ready then 0 else 1;
          safety_rank = if safety then 0 else if light then 1 else 2;
          priority_rank = p;
          created_at = a;
        })
        (record {
          state_rank = if ready' then 0 else 1;
          safety_rank = if safety' then 0 else if light' then 1 else 2;
          priority_rank = p';
          created_at = a';
        })
        s
        s'
        lt
      ≡ else_by (ready && not ready') ((ready && ready') || (not ready && not ready')) (
          else_by
            (is_safer safety light safety' light')
            (is_as_safe safety light safety' light')
            (else_by (ltb p p') (eqb p p') (else_by (ltb a a') (eqb a a') (lt s s'))))
ranked ready ready' safety light safety' light' p p' a a' s s' lt = ground arith

module _ (parse_time : String → Option ℕ) (text_lt : String → String → Bool)
    (ready_state : String) where
  goes_before-IsOrder : IsOrder text_lt → IsOrder (goes_before parse_time text_lt ready_state)
  unfolding goes_before
  goes_before-IsOrder order = record {
    asym = λ x y.
        key_before-asym (candidate_sort_key parse_time text_lt ready_state x)
          (candidate_sort_key parse_time text_lt ready_state y) x.identifier y.identifier text_lt
          (order.asym x.identifier y.identifier);
    neg_trans = λ x y z.
        key_before-neg_trans (candidate_sort_key parse_time text_lt ready_state x)
          (candidate_sort_key parse_time text_lt ready_state y)
          (candidate_sort_key parse_time text_lt ready_state z) x.identifier y.identifier
          z.identifier text_lt (order.neg_trans x.identifier y.identifier z.identifier);
  }

  -- The ranking: ready issues first; then safety issues, then light ones, then the others; then by their
  -- priority from 1 on, with none as 99; then the older first, without a time last; then by their names.
  abbrev pub outranks : Issue → Issue → Bool
  outranks l r =
      let ready = l.state == ready_state in
      let ready' = r.state == ready_state in
      let created = time_or_far_future (parse_time l.created_at) in
      let created' = time_or_far_future (parse_time r.created_at) in
      else_by (ready && not ready') ((ready && ready') || (not ready && not ready')) (
        else_by (is_safer (is_safety l) (is_light l) (is_safety r) (is_light r))
          (is_as_safe (is_safety l) (is_light l) (is_safety r) (is_light r))
          (else_by (ltb (urgency l) (urgency r)) (eqb (urgency l) (urgency r)) (
            else_by (ltb created created') (eqb created created')
              (text_lt l.identifier r.identifier))))

  goes_before-outranks :
      (l r : Issue) → goes_before parse_time text_lt ready_state l r ≡ outranks l r
  unfolding goes_before candidate_sort_key safety_rank
  goes_before-outranks l r =
      ranked (l.state == ready_state) (r.state == ready_state) (is_safety l) (is_light l)
        (is_safety r) (is_light r) (urgency l) (urgency r)
        (time_or_far_future (parse_time l.created_at))
        (time_or_far_future (parse_time r.created_at)) l.identifier r.identifier text_lt

  -- Ordering the candidates loses none and adds none, and puts none after one that it outranks: the ready
  -- ones come first, among them those with the labels runner-safety or harness, then docs-only or low-risk,
  -- then the others, and among those the urgent and then the older ones. The order of the texts is a strict
  -- weak order.
  pub order_candidates_lem :
      (candidates : List Issue)
      → IsOrder text_lt
      → Perm (order_candidates parse_time text_lt ready_state candidates) candidates
        × IsSorted outranks (order_candidates parse_time text_lt ready_state candidates)
  unfolding order_candidates
  order_candidates_lem candidates order = (
    sort_by-perm (goes_before parse_time text_lt ready_state) candidates,
    subst (λ before. IsSorted before (order_candidates parse_time text_lt ready_state candidates))
        (fun_ext (λ l. fun_ext (λ r. goes_before-outranks l r)))
        (sort_by-IsSorted (goes_before parse_time text_lt ready_state) (goes_before-IsOrder order)
          candidates),
  )

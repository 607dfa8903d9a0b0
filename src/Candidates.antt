-- ===== src/Candidates.antt =====
-- The order of the candidate issues and the back-off of a retry, candidate_selection.go.
-- `parse_time` is Go's time.Parse of RFC 3339 and `text_lt` its order of texts. A time is the
-- nanoseconds since Go's zero time.
pub mod Order
pub mod Backoff
pub mod Retry
use Prim.Native.Nat.{zero, suc}
use agent_machine.Common.{
  ℕ, ◌-◌, ◌*◌, ◌%◌, ◌^◌, String, Bool, not, ◌&&◌, ◌||◌, Option, none, some, List, ◌==◌, any, ltb,
  leb, eqb, trim_space, map_codes, codes_eq, lower_code, if◌then◌else◌,
}
use agent_machine.Common.Sort.{sort_by}

-- The fields of domain.Issue that the selection reads. A priority below 0 is the priority 0.
pub record Issue : Type 0 where
  pub id : String
  pub identifier : String
  pub priority : ℕ
  pub created_at : String
  pub state : String
  pub labels : List String

-- labelSet(candidate)[label], for an ASCII label
unfoldable pub has_label : Issue → String → Bool
unfolding lower_code trim_space
has_label candidate label =
    any (λ name. codes_eq (map_codes lower_code (trim_space name)) (map_codes (λ c. c) label))
      candidate.labels

unfoldable pub safety_rank : Issue → ℕ
unfolding has_label
safety_rank candidate =
    if has_label candidate "runner-safety" || has_label candidate "harness"
    then 0
    else if has_label candidate "docs-only" || has_label candidate "low-risk"
    then 1
    else 2

unfoldable pub is_blocked_candidate : Issue → Bool
unfolding has_label
is_blocked_candidate candidate = has_label candidate "blocked" || has_label candidate "needs-info"

pub record CandidateKey : Type 0 where
  pub state_rank : ℕ
  pub safety_rank : ℕ
  pub priority_rank : ℕ
  pub created_at : ℕ

-- time.Date(9999, 1, 1, 0, 0, 0, 0, time.UTC)
abbrev pub far_future : ℕ
far_future = 315506361600 * 1000000000

abbrev pub time_or_far_future : Option ℕ → ℕ
time_or_far_future none = far_future
time_or_far_future (some t) = t

abbrev pub key_before :
    CandidateKey → CandidateKey → String → String → (String → String → Bool) → Bool
key_before left right left_name right_name text_lt =
    if not (eqb left.state_rank right.state_rank)
    then ltb left.state_rank right.state_rank
    else if not (eqb left.safety_rank right.safety_rank)
    then ltb left.safety_rank right.safety_rank
    else if not (eqb left.priority_rank right.priority_rank)
    then ltb left.priority_rank right.priority_rank
    else if not (eqb left.created_at right.created_at)
    then ltb left.created_at right.created_at
    else text_lt left_name right_name

module _ (parse_time : String → Option ℕ) (text_lt : String → String → Bool)
    (ready_state : String) where
  unfoldable pub candidate_sort_key : Issue → CandidateKey
  unfolding safety_rank
  candidate_sort_key candidate = record {
    state_rank = if candidate.state == ready_state then 0 else 1;
    safety_rank = safety_rank candidate;
    priority_rank = if eqb candidate.priority 0 then 99 else candidate.priority;
    created_at = time_or_far_future (parse_time candidate.created_at);
  }

  -- the comparison that orderCandidates sorts by
  unfoldable pub goes_before : Issue → Issue → Bool
  unfolding candidate_sort_key
  goes_before left right =
      key_before (candidate_sort_key left) (candidate_sort_key right) left.identifier
        right.identifier text_lt

  unfoldable pub order_candidates : List Issue → List Issue
  unfolding sort_by goes_before
  order_candidates candidates = sort_by goes_before candidates

-- The doubling of an int64, as its 64 bits.
abbrev pub double : ℕ → ℕ
double d = (d * 2) % 2 ^ 64

-- a >= b on int64, for a `b` that is not negative
abbrev pub at_least : ℕ → ℕ → Bool
at_least a b = ltb a (2 ^ 63) && leb b a

-- the loop of retryBackoffDuration with its last test, on the rounds that are left
unfoldable pub backoff_rounds : ℕ → ℕ → ℕ → ℕ
backoff_rounds zero d max = if ltb d (2 ^ 63) && ltb max d then max else d
backoff_rounds (suc n) d max =
    let next = double d in
    let rest = backoff_rounds n next max in if at_least next max then max else rest

abbrev pub second : ℕ
second = 1000000000

-- A duration is its nanoseconds as 64 bits; a `max` that is not positive is 0, and so is a count below 0.
unfoldable pub retry_backoff_duration : ℕ → ℕ → ℕ
unfolding backoff_rounds
retry_backoff_duration retry_count max =
    let count = if ltb retry_count 1 then 1 else retry_count in
    let duration = backoff_rounds (count - 1) second max in if eqb max 0 then 0 else duration

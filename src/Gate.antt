-- ===== src/Gate.antt =====
-- The results of the gates, internal/gate/result.go.
pub mod Laws
pub mod Merge
pub mod Cleanup
use agent_machine.Common.{
  String, Bool, true, false, not, ◌&&◌, ◌||◌, List, [], ◌∷◌, ◌++◌, map, ◌==◌, trim_space, join,
  if◌then◌else◌,
}
use agent_machine.Common.Table.{select_where}
use agent_machine.Common.Distinct.{contains}

abbrev pub status_passed : String
status_passed = "passed"

abbrev pub status_blocked : String
status_blocked = "blocked"

abbrev pub status_reconciliation_needed : String
status_reconciliation_needed = "reconciliation_needed"

pub record Blocker : Type 0 where
  pub code : String
  pub reason : String

-- `metadata` lists the entries of the map; its keys are different.
pub record Result : Type 0 where
  pub domain : String
  pub subject : String
  pub status : String
  pub reason_text : String
  pub blockers : List Blocker
  pub next_action : String
  pub metadata : List (String × String)

abbrev pub new_result : String → String → Result
new_result domain subject = record {
  domain = domain;
  subject = subject;
  status = status_passed;
  reason_text = "";
  blockers = [];
  next_action = "";
  metadata = [];
}

abbrev pub is_nil : {A : Type 0} → List A → Bool
is_nil [] = true
is_nil (x ∷ xs) = false

unfoldable pub passed : Result → Bool
passed r = r.status == status_passed && is_nil r.blockers

-- strings.TrimSpace(s) == ""
abbrev pub is_blank : String → Bool
is_blank s = trim_space s == ""

unfoldable pub reason : Result → String
unfolding select_where
reason r =
    let reasons = map (λ b. b.reason) (select_where (λ b. not (is_blank b.reason)) r.blockers) in
    if is_nil reasons then trim_space r.reason_text else join "; " reasons

-- The loop of Codes; the set `seen` is what it has appended.
unfoldable pub codes_from : List String → List Blocker → List String
codes_from found [] = found
codes_from found (b ∷ bs) =
    let code = trim_space b.code in
    codes_from (if code == "" || contains found code then found else found ++ code ∷ []) bs

unfoldable pub codes : Result → List String
unfolding codes_from
codes r = codes_from [] r.blockers

abbrev pub block : String → String → Result → Result
block code why r = record r {
  status = status_blocked;
  blockers = r.blockers ++ record { code = code; reason = why } ∷ [];
  reason_text = if is_blank r.reason_text then why else r.reason_text;
}

abbrev pub reconciliation_needed : String → String → String → Result → Result
reconciliation_needed code why next_action r = record r {
  status = status_reconciliation_needed;
  blockers = r.blockers ++ record { code = code; reason = why } ∷ [];
  reason_text = why;
  next_action = next_action;
}

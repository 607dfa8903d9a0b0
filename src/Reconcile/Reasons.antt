-- ===== src/Reconcile/Reasons.antt =====
-- When the block reasons of a pull request are empty, as tests of what they look at.
use agent_machine.Common.{
  String, ◌≡◌, refl, ◌∙◌, trim_space, equal_fold, concat, arith, Bool, true, false, not, ◌&&◌, ◌||◌,
  Option, none, some, List, [], ◌∷◌, ◌++◌, ◌==◌, inl, inr, Bool-cases, join, append_nonempty,
  if◌then◌else◌,
}
use agent_machine.Runs.{RunRecord, missing_evidence_only}
use agent_machine.Candidates.{Issue}
use agent_machine.Gate.{is_blank}
use agent_machine.Reconcile.{Commit, PullRequestSummary, Facts, Config, Host}
use agent_machine.Reconcile.Identity.{
  AppIdentity, bot_name, bot_email, expected_app_author_source,
  commit_author_invariant_block_reason, app_identity_from_config_slug, code_host_provider,
  ownership, allows_pr_author, expected_base, expected_workspace_branch, has_wrong_base,
  has_wrong_head, has_wrong_author, commit_reason, reason_if, invariant_reasons,
  pr_invariant_block_reason,
}
use agent_machine.Reconcile.Blocks.{
  are_different, sqlite_merge_block_reason, run_artifact_merge_block_reason,
  merge_state_block_reason, has_human_approved_missing_evidence,
}

join-nonempty :
    (sep s : String) (ss : List String) → (s == "") ≡ false → (join sep (s ∷ ss) == "") ≡ false
join-nonempty sep s [] h = h
join-nonempty sep s (t ∷ ss) h = append_nonempty s _ h

-- reasons that are joined if their tests are met
joined_reasons :
    (wrong_base wrong_head wrong_author : Bool) (base head author commits : String)
    → (base == "") ≡ false
    → (head == "") ≡ false
    → (author == "") ≡ false
    → (join "; " (
          reason_if wrong_base base
          ++ (reason_if wrong_head head
              ++ (reason_if wrong_author author ++ reason_if (not (commits == "")) commits)))
        == "")
      ≡ (not wrong_base && (not wrong_head && (not wrong_author && commits == "")))
joined_reasons true h a b w u c p q r = join-nonempty "; " b _ p
joined_reasons false true a b w u c p q r = join-nonempty "; " w _ q
joined_reasons false false true b w u c p q r = join-nonempty "; " u _ r
joined_reasons false false false b w u c p q r = elim (Bool-cases (c == "")) [
  | inl e ↦ rw e refl
  | inr e ↦ rw e e
]

-- the commits are by the app, whose name is known
abbrev pub all_by_app : AppIdentity → List Commit → Bool
all_by_app app [] = true
all_by_app app (c ∷ cs) =
    not (is_blank app.slug)
    && (trim_space c.author_name == bot_name app && trim_space c.author_email == bot_email app)
    && all_by_app app cs

source_nonempty :
    (app : AppIdentity) → is_blank app.slug ≡ true → (expected_app_author_source app == "") ≡ false
unfolding expected_app_author_source
source_nonempty app h =
    rw h (append_nonempty "no expected GitHub App author could be derived from " _ refl)

-- one round of the loop over the commits
round_lem :
    (blank ours : Bool) (source rest other : String) (r : Bool)
    → (blank ≡ true → (source == "") ≡ false)
    → (rest == "") ≡ r
    → (other == "") ≡ false
    → ((if blank then source else if ours then rest else other) == "") ≡ (not blank && ours && r)
round_lem true ours source rest other r s h o = s refl
round_lem false true source rest other r s h o = h
round_lem false false source rest other r s h o = o

commit_author_reason_lem :
    (app : AppIdentity) (cs : List Commit)
    → (commit_author_invariant_block_reason app cs == "") ≡ all_by_app app cs
unfolding commit_author_invariant_block_reason
commit_author_reason_lem app [] = refl
commit_author_reason_lem app (c ∷ cs) =
    round_lem (is_blank app.slug)
      (trim_space c.author_name == bot_name app && trim_space c.author_email == bot_email app)
      (expected_app_author_source app) _ _ _ (source_nonempty app) (commit_author_reason_lem app cs)
      (append_nonempty "commit author" _ refl)

as_expected :
    (b b' h a : Bool) (k k' : Bool)
    → k ≡ k'
    → (not (not b && not b') && (not (not h) && (not (not a) && k)))
      ≡ ((b || b') && (h && (a && k')))
as_expected b b' h a k k' e = ground (arith, e)

module _ (host : Host) (config : Config) (c : Issue) (pr : PullRequestSummary) where
  abbrev pub app_identity : AppIdentity
  app_identity = app_identity_from_config_slug host config.github_app_slug

  commit_reason_lem :
      (commit_reason host config pr == "")
      ≡ (code_host_provider config == "gitlab" || all_by_app app_identity pr.commits)
  unfolding commit_reason
  commit_reason_lem = elim (Bool-cases (code_host_provider config == "gitlab")) [
    | inl e ↦ rw e refl
    | inr e ↦ rw e (commit_author_reason_lem app_identity pr.commits)
  ]

  pub invariant_parts : (pr_invariant_block_reason host config c pr == "") ≡ (
      not (has_wrong_base config pr)
      && (not (has_wrong_head c pr)
          && (not (has_wrong_author host config pr) && commit_reason host config pr == "")))
  unfolding pr_invariant_block_reason invariant_reasons
  invariant_parts =
      joined_reasons (has_wrong_base config pr) (has_wrong_head c pr)
        (has_wrong_author host config pr) _ _ _ (commit_reason host config pr)
        (append_nonempty "PR base branch is " _ refl) (append_nonempty "PR head branch is " _ refl)
        (append_nonempty "PR author is " _ refl)

  -- The block reason of a pull request is empty exactly if its base is the configured one or not known,
  -- its head is am/ID-workspace for the identifier ID of the issue, the ownership policy allows its author,
  -- and it is on GitLab or the name and the email of the author of each of its commits are the app's.
  pub pr_invariant_block_reason_lem : (pr_invariant_block_reason host config c pr == "") ≡ (
      (pr.base_ref_name == "" || equal_fold pr.base_ref_name (expected_base config))
      && (pr.head_ref_name == concat ("am/" ∷ trim_space c.identifier ∷ "-workspace" ∷ [])
          && (allows_pr_author (ownership host config) (trim_space pr.author)
              && (code_host_provider config == "gitlab" || all_by_app app_identity pr.commits))))
  unfolding has_wrong_base has_wrong_head has_wrong_author expected_workspace_branch
  pr_invariant_block_reason_lem =
      invariant_parts
      ∙ as_expected (pr.base_ref_name == "") (equal_fold pr.base_ref_name (expected_base config))
          (pr.head_ref_name == expected_workspace_branch c.identifier)
          (allows_pr_author (ownership host config) (trim_space pr.author))
          (commit_reason host config pr == "") _ commit_reason_lem

-- a run that passed: its status, its review and its pull request's address
abbrev pub is_passed_run : String → String → String → String → String → Bool
is_passed_run status review classification run_url url =
    not (are_different run_url url)
    && (status == "success"
        && (review == "passed" || (review == "failed" && classification == missing_evidence_only)))

by_facts :
    (different success passed approved : Bool) (url run review : String)
    → (url == "") ≡ false
    → (run == "") ≡ false
    → (review == "") ≡ false
    → ((if different
          then url
          else if not success
          then run
          else if passed
          then ""
          else if approved
          then ""
          else review)
        == "")
      ≡ (not different && (success && (passed || approved)))
by_facts true s p a u r w hu hr hw = hu
by_facts false false p a u r w hu hr hw = hr
by_facts false true true a u r w hu hr hw = refl
by_facts false true false true u r w hu hr hw = refl
by_facts false true false false u r w hu hr hw = hw

by_artifact :
    (different success passed failed missing : Bool) (url run review : String)
    → (url == "") ≡ false
    → (run == "") ≡ false
    → (review == "") ≡ false
    → ((if different
          then url
          else if not success
          then run
          else if success && failed && missing
          then ""
          else if not passed
          then review
          else "")
        == "")
      ≡ (not different && (success && (passed || (failed && missing))))
by_artifact true s p f m u r w hu hr hw = hu
by_artifact false false p f m u r w hu hr hw = hr
by_artifact false true p true true u r w hu hr hw = ground (arith)
by_artifact false true true false m u r w hu hr hw = refl
by_artifact false true true true false u r w hu hr hw = refl
by_artifact false true false false m u r w hu hr hw = hw
by_artifact false true false true false u r w hu hr hw = hw

-- The facts of the store let a pull request be merged exactly if its run passed.
pub sqlite_merge_block_reason_lem :
    (f : Facts) (url : String)
    → (sqlite_merge_block_reason f url == "")
      ≡ is_passed_run f.status f.review_status f.review_classification f.pr_url url
unfolding sqlite_merge_block_reason
sqlite_merge_block_reason_lem f url =
    by_facts (are_different f.pr_url url) (f.status == "success") (f.review_status == "passed")
      (f.review_status == "failed" && f.review_classification == missing_evidence_only) _ _ _
      (append_nonempty "SQLite PR URL " _ refl) (append_nonempty "run status is " _ refl)
      (append_nonempty "review status is " _ refl)

abbrev pub is_passed_record : Option RunRecord → String → Bool
is_passed_record none url = false
is_passed_record (some r) url =
    is_passed_run r.status r.review_status r.review_classification r.pr_url url

-- So does the artifact of the run, where the store has no facts.
pub run_artifact_merge_block_reason_lem :
    (o : Option RunRecord) (url : String)
    → (run_artifact_merge_block_reason o url == "") ≡ is_passed_record o url
unfolding run_artifact_merge_block_reason has_human_approved_missing_evidence
run_artifact_merge_block_reason_lem none url = refl
run_artifact_merge_block_reason_lem (some r) url =
    by_artifact (are_different r.pr_url url) (r.status == "success") (r.review_status == "passed")
      (r.review_status == "failed") (r.review_classification == missing_evidence_only) _ _ _
      (append_nonempty "run artifact PR URL " _ refl) (append_nonempty "run status is " _ refl)
      (append_nonempty "review status is " _ refl)

abbrev pub has_passed : Option Facts → Option RunRecord → String → Bool
has_passed none artifact url = is_passed_record artifact url
has_passed (some f) artifact url =
    is_passed_run f.status f.review_status f.review_classification f.pr_url url

pub merge_state_block_reason_lem :
    (f : Option Facts) (artifact : Option RunRecord) (url : String)
    → (merge_state_block_reason f artifact url == "") ≡ has_passed f artifact url
unfolding merge_state_block_reason
merge_state_block_reason_lem none artifact url = run_artifact_merge_block_reason_lem artifact url
merge_state_block_reason_lem (some f) artifact url = sqlite_merge_block_reason_lem f url

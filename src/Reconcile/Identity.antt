-- ===== src/Reconcile/Identity.antt =====
-- Whose pull requests and commits are the program's own: internal/codeownership, the identity of
-- internal/ghapi/app.go, and prInvariantBlockReason of reconciler.go.
use agent_machine.Common.{
  String, Bool, not, ◌&&◌, ◌||◌, List, [], ◌∷◌, ◌++◌, ◌==◌, eqb, map, concat, join, trim_space,
  equal_fold, if◌then◌else◌,
}
use agent_machine.Common.Words.{fields_func, to_lower}
use agent_machine.Common.Distinct.{contains}
use agent_machine.Common.Table.{select_where}
use agent_machine.Gate.{is_blank, is_nil}
use agent_machine.Gate.Merge.{empty_as_unknown}
use agent_machine.Candidates.{Issue}
use agent_machine.Reconcile.{Commit, PullRequestSummary, Config, Host}

pub record AppIdentity : Type 0 where
  pub slug : String
  pub source : String

-- AppIdentityFromConfigSlug, with the slug of the environment
unfoldable pub app_identity_from_config_slug : Host → String → AppIdentity
app_identity_from_config_slug host slug =
    if not (is_blank slug)
    then record { slug = trim_space slug; source = "config github.app_slug" }
    else if not (is_blank host.github_app_slug)
    then record { slug = trim_space host.github_app_slug; source = "GITHUB_APP_SLUG" }
    else record { slug = ""; source = "config github.app_slug or GITHUB_APP_SLUG" }

abbrev pub app_pr_author_login : AppIdentity → String
app_pr_author_login i = if is_blank i.slug then "" else concat ("app/" ∷ trim_space i.slug ∷ [])

abbrev pub bot_name : AppIdentity → String
bot_name i = if is_blank i.slug then "" else concat (trim_space i.slug ∷ "[bot]" ∷ [])

abbrev pub bot_email : AppIdentity → String
bot_email i =
    if bot_name i == "" then "" else concat (bot_name i ∷ "@users.noreply.github.com" ∷ [])

abbrev pub expected_pr_author_logins : AppIdentity → List String
expected_pr_author_logins i =
    if is_blank i.slug then [] else app_pr_author_login i ∷ bot_name i ∷ []

unfoldable pub expected_app_author_source : AppIdentity → String
expected_app_author_source i =
    let source = if is_blank i.source then "GitHub App slug" else trim_space i.source in
    if is_blank i.slug
    then concat ("no expected GitHub App author could be derived from " ∷ source ∷ [])
    else concat (app_pr_author_login i ∷ " or " ∷ bot_name i ∷ " (from " ∷ source ∷ ")" ∷ [])

unfoldable pub is_expected_commit_author : AppIdentity → Commit → Bool
is_expected_commit_author i c =
    trim_space c.author_name == bot_name i && trim_space c.author_email == bot_email i

abbrev pub unexpected_author : AppIdentity → Commit → String
unexpected_author i c =
    let oid = trim_space c.oid in
    concat (
      "commit author"
      ∷ (if oid == "" then "" else concat (" for " ∷ oid ∷ []))
      ∷ " is "
      ∷ empty_as_unknown (trim_space c.author_name)
      ∷ " <"
      ∷ empty_as_unknown (trim_space c.author_email)
      ∷ ">; expected "
      ∷ bot_name i
      ∷ " <"
      ∷ bot_email i
      ∷ ">"
      ∷ [])

-- the loop of CommitAuthorInvariantBlockReason
unfoldable pub commit_author_invariant_block_reason : AppIdentity → List Commit → String
unfolding expected_app_author_source is_expected_commit_author
commit_author_invariant_block_reason i [] = ""
commit_author_invariant_block_reason i (c ∷ cs) =
    let rest = commit_author_invariant_block_reason i cs in
    if is_blank i.slug
    then expected_app_author_source i
    else if is_expected_commit_author i c
    then rest
    else unexpected_author i c

-- codeownership.policy
pub record Policy : Type 0 where
  pub logins : List String
  pub source : String

pub record Input : Type 0 where
  pub provider : String
  pub github_pr_author_override : String
  pub github_app_expected_logins : List String
  pub github_app_source : String
  pub gitlab_pr_author_override : String
  pub gitlab_env_pr_author_override : String

unfoldable pub split_author_logins : String → List String
unfolding fields_func select_where
split_author_logins value =
    select_where (λ t. not (t == ""))
      (map trim_space (fields_func (λ r. eqb r 44 || eqb r 32 || eqb r 10 || eqb r 9) value))

unfoldable pub new_policy : Input → Policy
unfolding split_author_logins
new_policy input =
    let gitlab = split_author_logins input.gitlab_pr_author_override in
    let gitlab_env = split_author_logins input.gitlab_env_pr_author_override in
    let github = split_author_logins input.github_pr_author_override in
    if equal_fold (trim_space input.provider) "gitlab"
    then (if not (is_nil gitlab)
        then record { logins = gitlab; source = "config gitlab.pr_author_override" }
        else if not (is_nil gitlab_env)
        then record { logins = gitlab_env; source = "GITLAB_PR_AUTHOR_OVERRIDE" }
        else record {
          logins = [];
          source = "missing config gitlab.pr_author_override or GITLAB_PR_AUTHOR_OVERRIDE";
        })
    else if not (is_nil github)
    then record { logins = github; source = "config github.pr_author_override" }
    else if is_nil input.github_app_expected_logins
    then record {
      logins = [];
      source =
          if is_blank input.github_app_source
          then "config github.app_slug or GITHUB_APP_SLUG"
          else trim_space input.github_app_source;
    }
    else record { logins = input.github_app_expected_logins; source = input.github_app_source }

unfoldable pub allows_pr_author : Policy → String → Bool
unfolding contains
allows_pr_author p login =
    let trimmed = trim_space login in
    not (trimmed == "" || is_nil p.logins) && contains p.logins trimmed

abbrev pub expected_pr_author_source : Policy → String
expected_pr_author_source p =
    if is_nil p.logins
    then concat ("no expected GitHub App PR author could be derived from " ∷ p.source ∷ [])
    else concat (join " or " p.logins ∷ " (from " ∷ p.source ∷ ")" ∷ [])

unfoldable pub code_host_provider : Config → String
unfolding to_lower
code_host_provider config =
    let provider = to_lower (trim_space config.repository_provider) in
    if not (provider == "")
    then provider
    else if not (config.remote_provider == "")
    then config.remote_provider
    else "github"

unfoldable pub expected_workspace_branch : String → String
expected_workspace_branch identifier = concat ("am/" ∷ trim_space identifier ∷ "-workspace" ∷ [])

-- the policy that prInvariantBlockReason makes
unfoldable pub ownership : Host → Config → Policy
unfolding new_policy code_host_provider app_identity_from_config_slug
ownership host config =
    let app = app_identity_from_config_slug host config.github_app_slug in
    new_policy (record {
      provider = code_host_provider config;
      github_pr_author_override = config.github_pr_author_override;
      github_app_expected_logins = expected_pr_author_logins app;
      github_app_source = app.source;
      gitlab_pr_author_override = config.gitlab_pr_author_override;
      gitlab_env_pr_author_override = host.gitlab_pr_author_override;
    })

abbrev pub expected_base : Config → String
expected_base config =
    let base = trim_space config.base_branch in if base == "" then "develop" else base

-- the tests of prInvariantBlockReason
unfoldable pub has_wrong_base : Config → PullRequestSummary → Bool
has_wrong_base config pr =
    not (pr.base_ref_name == "") && not (equal_fold pr.base_ref_name (expected_base config))

unfoldable pub has_wrong_head : Issue → PullRequestSummary → Bool
unfolding expected_workspace_branch
has_wrong_head candidate pr =
    not (pr.head_ref_name == expected_workspace_branch candidate.identifier)

unfoldable pub has_wrong_author : Host → Config → PullRequestSummary → Bool
unfolding ownership allows_pr_author
has_wrong_author host config pr =
    not (allows_pr_author (ownership host config) (trim_space pr.author))

unfoldable pub commit_reason : Host → Config → PullRequestSummary → String
unfolding code_host_provider app_identity_from_config_slug commit_author_invariant_block_reason
commit_reason host config pr =
    if not (code_host_provider config == "gitlab")
    then commit_author_invariant_block_reason
        (app_identity_from_config_slug host config.github_app_slug) pr.commits
    else ""

abbrev pub reason_if : Bool → String → List String
reason_if bad reason = if bad then reason ∷ [] else []

-- The base is compared by strings.EqualFold; of two names outside ASCII that fold to each other it says no.
unfoldable pub invariant_reasons : Host → Config → Issue → PullRequestSummary → List String
invariant_reasons host config candidate pr =
    reason_if (has_wrong_base config pr) (
      concat (
        "PR base branch is "
        ∷ host.quote pr.base_ref_name
        ∷ "; expected "
        ∷ host.quote (expected_base config)
        ∷ []))
    ++ (reason_if (has_wrong_head candidate pr) (
          concat (
            "PR head branch is "
            ∷ host.quote (empty_as_unknown pr.head_ref_name)
            ∷ "; expected "
            ∷ host.quote (expected_workspace_branch candidate.identifier)
            ∷ []))
        ++ (reason_if (has_wrong_author host config pr) (
              concat (
                "PR author is "
                ∷ host.quote (empty_as_unknown (trim_space pr.author))
                ∷ "; expected "
                ∷ expected_pr_author_source (ownership host config)
                ∷ []))
            ++ reason_if (not (commit_reason host config pr == "")) (commit_reason host config pr)))

unfoldable pub pr_invariant_block_reason : Host → Config → Issue → PullRequestSummary → String
unfolding invariant_reasons
pr_invariant_block_reason host config candidate pr =
    join "; " (invariant_reasons host config candidate pr)

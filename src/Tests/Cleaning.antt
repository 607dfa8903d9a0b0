-- ===== src/Tests/Cleaning.antt =====
-- The worker that deletes workspaces on concrete inputs.
use agent_machine.Common.{
  String, refl, true, none, [], ◌==◌, concat, ◌∷◌, if◌then◌else◌, trim_space,
}
use agent_machine.Gate.Cleanup.{Decision}
use agent_machine.Reconcile.{found, missing}
use agent_machine.Workers.Cleaning.{answer, Dependencies, course}
use agent_machine.Workers.Cleaning.Safety.{MayDelete, course-MayDelete}
use agent_machine.Tests.Data.{store, claimed_task}

abbrev wanted : String → Decision
wanted workspace = record {
  delete = true;
  reason = "issue is done";
  category = "done";
  issue_identifier = "AM-1";
  artifact_ref = "";
  workspace_path = workspace;
}

-- one workspace, of a done issue
abbrev dependencies : Dependencies
dependencies = record {
  workspace_root = "/work";
  safe_workspace_root = λ root. answer root;
  safe_workspace_path = λ root name. answer (concat (root ∷ "/" ∷ name ∷ []));
  unsafe_delete = λ root workspace. none;
  done_issues = answer (λ key. key == "AM-1");
  cleanup_decision = λ root workspace done db. answer (wanted workspace);
  stat = λ path. if path == "/work/AM-1" then found tt else missing;
  remove_all = λ path. none;
  clean = λ path. path;
  decode = λ t. ("AM-1", "/work/AM-1");
  describe = λ e. "error";
}

course-MayDelete_example : MayDelete dependencies store claimed_task "/work/AM-1"
unfolding course trim_space
course-MayDelete_example = course-MayDelete dependencies store claimed_task "/work/AM-1" refl

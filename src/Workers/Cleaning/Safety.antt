-- ===== src/Workers/Cleaning/Safety.antt =====
-- When a workspace is deleted.
use mathlib.Core.Path.{subst}
use agent_machine.Common.{
  String, ◌≡◌, refl, Bool, true, false, not, Option, none, some, inl, inr, Bool-cases,
  if◌then◌else◌,
}
use agent_machine.State.{WorkerTask, Db}
use agent_machine.Gate.Cleanup.{Decision}
use agent_machine.Reconcile.{Read, unavailable, missing, found}
use agent_machine.Workers.Cleaning.{
  Answer, refused, answer, Dependencies, Course, on_removal, on_check, on_decision, on_stat,
  on_issues, conflicts, on_path, workspace_name, on_root, course,
}

module _ (deps : Dependencies) (db : Db) where
  -- The decision lets a workspace be deleted, and its path is safe.
  pub record IsCondemned (root workspace : String) (done : String → Bool) : Type 0 where
    pub decision : Decision
    pub ruled : deps.cleanup_decision root workspace done db ≡ answer decision
    pub wanted : decision.delete ≡ true
    pub safe : deps.unsafe_delete root workspace ≡ none

  -- All that is asked before a workspace is deleted for the task `t`.
  pub record MayDelete (t : WorkerTask) (workspace : String) : Type 0 where
    pub root : String
    pub done : String → Bool
    pub rooted : deps.safe_workspace_root deps.workspace_root ≡ answer root
    pub placed : deps.safe_workspace_path root (workspace_name deps t) ≡ answer workspace
    pub expected : conflicts deps (deps.decode t).1 workspace ≡ false
    pub listed : deps.done_issues ≡ answer done
    pub present : deps.stat workspace ≡ found tt
    pub condemned : IsCondemned root workspace done

  abbrev Removes : Course → String → Type 0
  Removes c workspace = c.removed ≡ some workspace

  removal :
      (w : String) (d : Decision) (o : Option String) (workspace : String)
      → Removes (on_removal w d o) workspace
      → w ≡ workspace
  removal w d none workspace h = cc
  removal w d (some e) workspace h = cc

  check :
      (w : String) (d : Decision) (o : Option String) (workspace : String)
      → Removes (on_check deps w d o) workspace
      → (o ≡ none) × (w ≡ workspace)
  check w d none workspace h = (refl, removal w d (deps.remove_all w) workspace h)
  check w d (some e) workspace h = cc

  deleted :
      (b : Bool) (kept other : Course) (workspace : String)
      → kept.removed ≡ none
      → Removes (if not b then kept else other) workspace
      → (b ≡ true) × Removes other workspace
  deleted true kept other workspace k h = (refl, h)
  deleted false kept other workspace k h = cc

  decision :
      (root w : String) (done : String → Bool) (a : Answer Decision) (workspace : String)
      → deps.cleanup_decision root w done db ≡ a
      → Removes (on_decision deps root w a) workspace
      → IsCondemned root w done × (w ≡ workspace)
  decision root w done (refused e) workspace s h = cc
  decision root w done (answer d) workspace s h =
      let (wanted, removes) = deleted d.delete _ _ workspace refl h in
      let (safe, same) = check w d (deps.unsafe_delete root w) workspace removes in
      (record { decision = d; ruled = s; wanted = wanted; safe = safe }, same)

  presence :
      (root w : String) (done : String → Bool) (r : Read (Unit {0})) (workspace : String)
      → Removes (on_stat deps root w done db r) workspace
      → (r ≡ found tt) × IsCondemned root w done × (w ≡ workspace)
  presence root w done missing workspace h = cc
  presence root w done (unavailable e) workspace h = cc
  presence root w done (found u) workspace h =
      let (condemned, same) =
        decision root w done (deps.cleanup_decision root w done db) workspace refl h in
      (refl, condemned, same)

  listing :
      (t : WorkerTask) (root w : String) (a : Answer (String → Bool)) (workspace : String)
      → deps.safe_workspace_root deps.workspace_root ≡ answer root
      → deps.safe_workspace_path root (workspace_name deps t) ≡ answer w
      → conflicts deps (deps.decode t).1 w ≡ false
      → deps.done_issues ≡ a
      → Removes (on_issues deps root w db a) workspace
      → MayDelete t workspace
  listing t root w (refused e) workspace r p c s h = cc
  listing t root w (answer done) workspace r p c s h =
      let (present, condemned, same) = presence root w done (deps.stat w) workspace h in
      let at : MayDelete t w = record {
        root = root;
        done = done;
        rooted = r;
        placed = p;
        expected = c;
        listed = s;
        present = present;
        condemned = condemned;
      } in
      subst (λ x. MayDelete t x) same at

  placing :
      (t : WorkerTask) (root : String) (a : Answer String) (workspace : String)
      → deps.safe_workspace_root deps.workspace_root ≡ answer root
      → deps.safe_workspace_path root (workspace_name deps t) ≡ a
      → Removes (on_path deps root (deps.decode t).1 db a) workspace
      → MayDelete t workspace
  placing t root (refused e) workspace r p h = cc
  placing t root (answer w) workspace r p h =
      elim (Bool-cases (conflicts deps (deps.decode t).1 w)) [
        | inl y ↦ let bad = rw y at h in cc
        | inr n ↦ listing t root w deps.done_issues workspace r p n refl (rw n at h)
      ]

  rooting :
      (t : WorkerTask) (a : Answer String) (workspace : String)
      → deps.safe_workspace_root deps.workspace_root ≡ a
      → Removes (on_root deps t db a) workspace
      → MayDelete t workspace
  rooting t (refused e) workspace r h = cc
  rooting t (answer root) workspace r h =
      placing t root (deps.safe_workspace_path root (workspace_name deps t)) workspace r refl h

  -- A path that the worker gives to os.RemoveAll is the safe one of its task's workspace, which is the one
  -- that the payload names if it names one; it exists, the cleanup decision deletes it, and the last test
  -- finds its deletion safe.
  pub course-MayDelete :
      (t : WorkerTask) (workspace : String)
      → (course deps t db).removed ≡ some workspace
      → MayDelete t workspace
  unfolding course
  course-MayDelete t workspace h =
      rooting t (deps.safe_workspace_root deps.workspace_root) workspace refl h

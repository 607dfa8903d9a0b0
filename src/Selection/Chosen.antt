-- ===== src/Selection/Chosen.antt =====
-- Which issue the selection chooses.
use agent_machine.Common.{
  ◌≡◌, refl, Bool, false, Option, none, some, List, [], ◌∷◌, inl, inr, Bool-cases, if◌then◌else◌,
}
use agent_machine.State.{Platform, WorkerTask, Db, Call, Exec}
use agent_machine.State.Holds.{Holds}
use agent_machine.Candidates.{Issue, order_candidates}
use agent_machine.Reconcile.Evidence.{or_else}
use agent_machine.Selection.{Scene, Choice, or_next, first_choice, next_runnable_candidate}
use agent_machine.Selection.Rounds.{
  Returns, Returns-bind, is_free, is_free_ready, is_open, choice_if, skip-Returns,
  judge_any-Returns, judge_ready-Returns, round-Returns,
}

-- the first of a list that passes a test
abbrev pub first {ℓ} : {A : Type ℓ} → (A → Bool) → List A → Option A
first p [] = none
first p (x ∷ xs) = let rest = first p xs in if p x then some x else rest

module _ (sys : Platform) (scene : Scene) where
  -- the first issue in the ready state that is open, or else the first that is
  abbrev pub preferred : List WorkerTask → List Issue → Option Issue
  preferred tasks cs =
      or_else (first (is_open sys scene tasks (is_free_ready sys scene)) cs)
        (first (is_open sys scene tasks (is_free sys scene)) cs)

  abbrev pub choice_of : Option Issue → Option Choice
  choice_of none = none
  choice_of (some c) = some (c, scene.prs c.identifier)

  module _ (listing noting : Call → Bool) (works : listing Call.select ≡ false) where
    loop-Returns :
        (step : Issue → Exec (Option Choice)) (q : Issue → Bool) (tasks : List WorkerTask)
        → ((c : Issue) (db : Db)
            → db.tasks ≡ tasks
            → Holds (Returns tasks (choice_if sys scene (q c) c)) (step c) db)
        → (cs : List Issue) (db : Db) → db.tasks ≡ tasks
        → Holds
            (Returns tasks (choice_of (first q cs)))
            (first_choice sys scene listing noting step cs)
            db
    unfolding first_choice
    loop-Returns step q tasks h [] db t = record { at = (refl, t) }
    loop-Returns step q tasks h (c ∷ cs) db t =
        Returns-bind tasks _ _ db (choice_if sys scene (q c) c) _ (h c db t) (λ db' t'.
          elim (Bool-cases (q c)) [
            | inl e ↦ rw e (record { at = (refl, t') })
            | inr e ↦ rw e (loop-Returns step q tasks h cs db' t')
          ])

    after_first :
        (tasks : List WorkerTask) (o other : Option Issue) (next : Exec (Option Choice)) (db : Db)
        → db.tasks ≡ tasks
        → Holds (Returns tasks (choice_of other)) next db
        → Holds (Returns tasks (choice_of (or_else o other))) (or_next (choice_of o) next) db
    after_first tasks none other next db t h = h
    after_first tasks (some c) other next db t h = record { at = (refl, t) }

    -- With a store whose reads work, the selection chooses the first candidate in their order that is in the
    -- ready state and open, or else the first that is open, and none only if none is. It changes no task.
    pub next_runnable_candidate-Returns :
        (candidates : List Issue) (db : Db)
        → Holds
            (Returns db.tasks (
              choice_of (
                preferred db.tasks (
                  order_candidates scene.parse_time sys.text_lt scene.config.ready_state
                    candidates))))
            (next_runnable_candidate sys scene listing noting candidates)
            db
    unfolding next_runnable_candidate
    next_runnable_candidate-Returns candidates db =
        let ordered =
          order_candidates scene.parse_time sys.text_lt scene.config.ready_state candidates in
        let tasks = db.tasks in
        Returns-bind tasks _ _ db
          (choice_of (first (is_open sys scene tasks (is_free_ready sys scene)) ordered)) _
          (loop-Returns _ (is_open sys scene tasks (is_free_ready sys scene)) tasks
            (round-Returns sys scene listing noting works _ _ (is_free_ready sys scene) tasks
              (λ c db' t. skip-Returns sys scene listing noting works c _ tasks db' t)
              (λ c db' t. judge_ready-Returns sys scene listing noting works c tasks db' t))
            ordered db refl)
          (λ db' t.
            after_first tasks (first (is_open sys scene tasks (is_free_ready sys scene)) ordered)
              (first (is_open sys scene tasks (is_free sys scene)) ordered) _ db' t
              (loop-Returns _ (is_open sys scene tasks (is_free sys scene)) tasks
                (round-Returns sys scene listing noting works _ _ (is_free sys scene) tasks
                  (λ c db'' t'. record { at = (refl, t') })
                  (λ c db'' t'. judge_any-Returns sys scene listing noting works c tasks db'' t'))
                ordered db' t))

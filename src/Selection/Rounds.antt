-- ===== src/Selection/Rounds.antt =====
-- What a round of the selection returns.
use agent_machine.Common.{
  String, ◌≡◌, refl, ap, sym, ◌∙◌, arith, Bool, true, false, not, ◌&&◌, ◌||◌, Option, none, some,
  List, ◌==◌, any, if◌then◌else◌,
}
use agent_machine.Common.Table.{select_where}
use agent_machine.Common.Sort.{sort_by}
use agent_machine.Common.Keyed.{any-sort_by, any-select_where}
use agent_machine.State.{
  Platform, WorkerTask, Db, Payload, Result, ok, err, Call, Exec, ◌>>=◌, ◌>>◌,
}
use agent_machine.State.Holds.{Holds, Then, Holds-map, Holds-choose, Holds-bind}
use agent_machine.State.Tasks.{worker_tasks, precedes}
use agent_machine.Workers.{blocks_dispatch}
use agent_machine.Workers.Dispatch.Enqueued.{append_event-tasks}
use agent_machine.Gate.{is_blank}
use agent_machine.Candidates.{Issue}
use agent_machine.Reconcile.{is_some}
use agent_machine.Selection.{
  Scene, Choice, is_active, is_left_to_review, is_held_back, is_runnable, is_ready, decision_on,
  has_blocked_label, emit, skip, select, has_active_task, judge_ready, judge_any, round,
}

unasked : (a b c : Bool) → (not a || b) ≡ true → (a && not b && c) ≡ false
unasked a b c h = ground (arith, h)

asked : (a b c : Bool) → (not a || b) ≡ false → (a && not b && c) ≡ c
asked a b c h = ground (arith, h)

-- The result is `o`, and the queue is `tasks`.
abbrev pub Returns : {A : Type 0} → List WorkerTask → A → Result A × Db → Type 0
Returns tasks o out = (out.0 ≡ ok o) × (out.1.tasks ≡ tasks)

module _ {A B : Type 0} (tasks : List WorkerTask) where
  Then-Returns :
      (f : A → Exec B) (a : A) (b : B)
      → ((db : Db) → db.tasks ≡ tasks → Holds (Returns tasks b) (f a) db)
      → (out : Result A × Db) → Returns tasks a out
      → Then (Returns tasks b) f out
  Then-Returns f a b k (ok x, db) (h, t) = let same : a ≡ x = cc in rw (← same) (k db t)
  Then-Returns f a b k (err e, db) (h, t) = cc

  pub Returns-bind :
      (m : Exec A) (f : A → Exec B) (db : Db) (a : A) (b : B)
      → Holds (Returns tasks a) m db
      → ((db' : Db) → db'.tasks ≡ tasks → Holds (Returns tasks b) (f a) db')
      → Holds (Returns tasks b) (m >>= f) db
  Returns-bind m f db a b h k =
      Holds-bind (Returns tasks b) m f db (Holds-map m db (Then-Returns f a b k) h)

held_stops : (a h b r : Bool) → h ≡ true → (a && (not h && (not b && r))) ≡ false
held_stops a h b r e = ground (arith, e)

label_stops : (a h b r : Bool) → b ≡ true → (a && (not h && (not b && r))) ≡ false
label_stops a h b r e = ground (arith, e)

unready_stops : (a h b r : Bool) → (a && r) ≡ false → (a && (not h && (not b && r))) ≡ false
unready_stops a h b r e = ground (arith, e)

all_met :
    (a h b r : Bool)
    → h ≡ false
    → b ≡ false
    → (a && r) ≡ true
    → (a && (not h && (not b && r))) ≡ true
all_met a h b r p q e = ground (arith, p, q, e)

module _ (sys : Platform) (scene : Scene) where
  -- the store has a task of the implementation's role for the issue that keeps it from a new one
  abbrev pub is_taken : List WorkerTask → Issue → Bool
  is_taken tasks c =
      is_some scene.reader
      && not (is_blank c.identifier)
      && any
          (λ t.
            t.role == "implementation" && (t.issue_key == c.identifier && blocks_dispatch t.status))
          tasks

  -- nothing on the issue itself keeps it from being worked on
  abbrev pub is_free : Issue → Bool
  is_free c =
      not (is_held_back sys scene c)
      && (not (has_blocked_label (decision_on sys scene c)) && is_runnable sys scene c)

  abbrev pub is_free_ready : Issue → Bool
  is_free_ready c = is_ready sys scene c && is_free c

  -- nor does the review, or a task in the queue
  abbrev pub is_open : List WorkerTask → (Issue → Bool) → Issue → Bool
  is_open tasks q c = not (is_left_to_review sys scene c) && (not (is_taken tasks c) && q c)

  -- the issue, if the test holds of it
  abbrev pub choice_if : Bool → Issue → Option Choice
  choice_if b c = if b then some (c, scene.prs c.identifier) else none

  module _ (listing noting : Call → Bool) (works : listing Call.select ≡ false) where
    emit-Returns :
        (event_type : String) (c : Issue) (payload : Payload) (tasks : List WorkerTask) (db : Db)
        → db.tasks ≡ tasks
        → Holds (Returns tasks tt) (emit sys scene listing noting event_type c payload) db
    unfolding emit
    emit-Returns event_type c payload tasks db t =
        Holds-choose _ _ _ db
          (λ _. record { at = (refl, (append_event-tasks sys noting scene.now _ db).at ∙ t) })
          (λ _. record { at = (refl, t) })

    listing-Returns :
        (tasks : List WorkerTask) (db : Db)
        → db.tasks ≡ tasks
        → Holds
            (Returns tasks
              (sort_by (precedes sys) (select_where (λ t. t.role == "implementation") tasks)))
            (worker_tasks sys listing scene.now "implementation")
            db
    unfolding worker_tasks ◌>>◌
    listing-Returns tasks db t = rw (works, ← t) (record { at = (refl, refl) })

    active-Returns :
        (c : Issue) (tasks : List WorkerTask) (db : Db)
        → db.tasks ≡ tasks
        → Holds (Returns tasks (is_taken tasks c)) (has_active_task sys scene listing noting c) db
    unfolding has_active_task is_active
    active-Returns c tasks db t =
        let p = λ (w : WorkerTask). w.issue_key == c.identifier && blocks_dispatch w.status in
        let by_role = λ (w : WorkerTask). w.role == "implementation" in
        let found = any (λ w. by_role w && p w) tasks in
        Holds-choose _ _ _ db
          (λ e. record {
            at = (ap ok (sym (unasked (is_some scene.reader) (is_blank c.identifier) found e)), t);
          })
          (λ e. Returns-bind tasks _ _ db _ _ (listing-Returns tasks db t) (λ db' t'. record {
            at = (
              ap ok (
                  any-sort_by (precedes sys) p (select_where by_role tasks)
                  ∙ (any-select_where by_role p tasks
                      ∙ sym (asked (is_some scene.reader) (is_blank c.identifier) found e))),
              t',
            );
          }))

    pub skip-Returns :
        (c : Issue) (payload : Payload) (tasks : List WorkerTask) (db : Db)
        → db.tasks ≡ tasks
        → Holds (Returns tasks none) (skip sys scene listing noting c payload) db
    skip-Returns c payload tasks db t =
        Returns-bind tasks _ _ db tt none (emit-Returns "candidate_skipped" c payload tasks db t)
          (λ db' t'. record { at = (refl, t') })

    select-Returns :
        (c : Issue) (tasks : List WorkerTask) (db : Db)
        → db.tasks ≡ tasks
        → Holds
            (Returns tasks (some (c, scene.prs c.identifier)))
            (select sys scene listing noting c)
            db
    select-Returns c tasks db t =
        Returns-bind tasks _ _ db tt _ (emit-Returns "candidate_selected" c _ tasks db t)
          (λ db' t'. record { at = (refl, t') })

    pub judge_any-Returns :
        (c : Issue) (tasks : List WorkerTask) (db : Db)
        → db.tasks ≡ tasks
        → Holds (Returns tasks (choice_if (is_free c) c)) (judge_any sys scene listing noting c) db
    unfolding judge_any
    judge_any-Returns c tasks db t =
        Holds-choose _ _ _ db (λ h. rw h (record { at = (refl, t) }))
          (λ h.
            Holds-choose _ _ _ db (λ b. rw (h, b) (record { at = (refl, t) }))
              (λ b.
                Holds-choose _ _ _ db (λ r. rw (h, b, r) (select-Returns c tasks db t))
                  (λ r. rw (h, b, r) (record { at = (refl, t) }))))

    -- a round that chooses nothing, and one that chooses its issue
    none-Returns :
        (b : Bool) (c : Issue) (tasks : List WorkerTask) (m : Exec (Option Choice)) (db : Db)
        → b ≡ false
        → Holds (Returns tasks none) m db
        → Holds (Returns tasks (choice_if b c)) m db
    none-Returns b c tasks m db e h = rw e h

    pub judge_ready-Returns :
        (c : Issue) (tasks : List WorkerTask) (db : Db)
        → db.tasks ≡ tasks
        → Holds
            (Returns tasks (choice_if (is_free_ready c) c))
            (judge_ready sys scene listing noting c)
            db
    unfolding judge_ready
    judge_ready-Returns c tasks db t =
        let ready = is_ready sys scene c in
        let held = is_held_back sys scene c in
        let blocked = has_blocked_label (decision_on sys scene c) in
        let runs = is_runnable sys scene c in
        let skipped = λ (payload : Payload). skip-Returns c payload tasks db t in
        Holds-choose _ _ _ db
          (λ h. none-Returns _ c tasks _ db (held_stops ready held blocked runs h) (skipped _))
          (λ h.
            Holds-choose _ _ _ db
              (λ b. none-Returns _ c tasks _ db (label_stops ready held blocked runs b) (skipped _))
              (λ b.
                Holds-choose _ _ _ db
                  (λ r. rw (all_met ready held blocked runs h b r) (select-Returns c tasks db t))
                  (λ r.
                    let stops = unready_stops ready held blocked runs r in
                    Holds-choose _ _ _ db
                      (λ k. none-Returns _ c tasks _ db stops (record { at = (refl, t) }))
                      (λ k. none-Returns _ c tasks _ db stops (skipped _)))))

    -- A round chooses its issue exactly if it is not left to the review, not taken, and passes the judge.
    pub round-Returns :
        (busy judge : Issue → Exec (Option Choice)) (q : Issue → Bool) (tasks : List WorkerTask)
        → ((c : Issue) (db : Db) → db.tasks ≡ tasks → Holds (Returns tasks none) (busy c) db)
        → ((c : Issue) (db : Db)
            → db.tasks ≡ tasks
            → Holds (Returns tasks (choice_if (q c) c)) (judge c) db)
        → (c : Issue) (db : Db) → db.tasks ≡ tasks
        → Holds
            (Returns tasks (choice_if (is_open tasks q c) c))
            (round sys scene listing noting busy judge c)
            db
    unfolding round
    round-Returns busy judge q tasks hb hj c db t =
        Holds-choose _ _ _ db (λ l. rw l (skip-Returns c _ tasks db t))
          (λ l.
            Returns-bind tasks _ _ db (is_taken tasks c) _ (active-Returns c tasks db t) (λ db' t'.
              Holds-choose _ _ _ db' (λ a. rw (l, a) (hb c db' t')) (λ a. rw (l, a) (hj c db' t'))))

-- ===== src/Tests/Turns.antt =====
-- The turns of a lane on concrete inputs.
use agent_machine.Common.{
  String, ◌≡◌, refl, Bool, true, false, ◌==◌, not, ◌&&◌, if◌then◌else◌, none, some, [], ◌∷◌,
}
use agent_machine.State.{WorkerTask, Payload, Error, Call, ◌>>◌, ◌>>=◌, time_or}
use agent_machine.Common.Table.{map_some}
use agent_machine.State.Rows.{has_status, view, affected}
use agent_machine.State.Tasks.{complete_worker_task, touch_claimed_worker_task}
use agent_machine.State.Tasks.Completed.{completion}
use agent_machine.State.Tasks.Claims.{never}
use agent_machine.State.Results.{upsert_worker_result}
use agent_machine.State.Leases.{renew_lease, leases_affected, is_unreleased}
use agent_machine.State.Recovery.{mark_stale_claimed}
use agent_machine.Lanes.Turn.{
  LaneTask, Phase, Moment, Activity, Outcome, judged, revised, stale_worker_task_after,
}
use agent_machine.Lanes.Turn.Steps.{
  finish, turn_result, renew_supervision, run_continuous_worker_task,
}
use agent_machine.Lanes.Turn.Occupied.{run_continuous_worker_task-occupied}
use agent_machine.Lanes.Turn.Finished.{has_failed, IsReported, finish_lem, finish-IsReported}
use agent_machine.Lanes.Turn.Supervised.{renew_supervision-protects}
use agent_machine.Tests.Data.{platform, store, store-HasUniqueKeys, claimed_task}

abbrev lane_task : String → LaneTask
lane_task key = record {
  key = key;
  role = "work";
  lane_name = "lane";
  lease_name = "";
  payload = [];
}

abbrev works : Phase → Call → Bool
works phase call = false

-- the result cannot be stored
abbrev cannot_save : Phase → Call → Bool
cannot_save Phase.saving Call.insert = true
cannot_save _ _ = false

abbrev encode : Payload → String
encode p = "{}"

abbrev describe : Error → String
describe e = "error"

-- a work that ends with the error of its supervision
abbrev work : Bool → WorkerTask → Activity
work did_work t = record {
  moments = Moment.tick 12 never never ∷ Moment.context_done "canceled" ∷ [];
  did_work = did_work;
  error = none;
  error_is_canceled = false;
  is_noticed = false;
}

abbrev good : Outcome
good = record { did_work = true; run_error = none; supervision_error = none }

abbrev bad : Outcome
bad = record { did_work = true; run_error = none; supervision_error = some "lease held" }

run_continuous_worker_task-occupied_example :
    let turn = λ (d : Bool).
      run_continuous_worker_task platform works
        (λ k. never)
        10
        encode
        describe
        "host:1"
        10
        11
        12
        (lane_task "c")
        (work d)
        store in
    (turn true ≡ turn false)
    × ((turn true).1
        ≡ (mark_stale_claimed platform (λ k. never) 10 10 stale_worker_task_after store).1)
unfolding view
run_continuous_worker_task-occupied_example =
    run_continuous_worker_task-occupied platform works (λ k. never) 10 encode describe "host:1" 10
      11 12 (lane_task "c") (work true) (work false) store store-HasUniqueKeys refl

finish_lem_example :
    let out =
      finish platform cannot_save
        (λ k. never)
        10
        encode
        describe
        "host:1"
        10
        11
        12
        (lane_task "b")
        claimed_task
        bad
        store in
    view out.1.tasks "b" ≡ (
      if "b" == "b" && not (cannot_save Phase.completing Call.update)
      then map_some
          (completion (if has_failed bad then "failed" else "completed") (time_or 10 12))
          (view store.tasks "b")
      else view store.tasks "b")
finish_lem_example =
    finish_lem platform cannot_save (λ k. never) 10 encode describe "host:1" 10 11 12
      (lane_task "b") claimed_task store store-HasUniqueKeys bad refl "b"

finish-IsReported_example :
    (has_failed good ≡ false)
    × IsReported platform works
        (λ k. never)
        10
        encode
        describe
        "host:1"
        10
        11
        12
        (lane_task "b")
        claimed_task
        store
        store-HasUniqueKeys
        true
        (finish platform works
          (λ k. never)
          10
          encode
          describe
          "host:1"
          10
          11
          12
          (lane_task "b")
          claimed_task
          good
          store).1
unfolding finish complete_worker_task ◌>>◌ judged ◌>>=◌ affected has_status upsert_worker_result
    turn_result revised
finish-IsReported_example =
    finish-IsReported platform works (λ k. never) 10 encode describe "host:1" 10 11 12
      (lane_task "b") claimed_task store store-HasUniqueKeys good tt refl

-- renewed at 20, and a recovery at 25 whose cutoff is 16
renew_supervision-protects_example :
    let renewed =
      (renew_supervision platform works
        (λ k. never)
        10
        encode
        describe
        "host:1"
        10
        11
        12
        (lane_task "b")
        never
        never
        claimed_task
        "lane"
        20
        store).1 in
    view (mark_stale_claimed platform (λ k. never) 25 25 9 renewed).1.tasks "b"
    ≡ view renewed.tasks "b"
unfolding renew_supervision ◌>>=◌ renew_lease leases_affected is_unreleased
    touch_claimed_worker_task affected has_status
renew_supervision-protects_example =
    renew_supervision-protects platform works (λ k. never) 10 encode describe "host:1" 10 11 12
      (lane_task "b") never never claimed_task "lane" 20 store 25 25 9 store-HasUniqueKeys refl refl

-- ===== src/State/Results.antt =====
-- The results of the workers: UpsertWorkerResult of internal/state/store.go, and what it stores.
use agent_machine.Common.{
  String, ◌≡◌, refl, Bool, true, not, Option, none, some, List, ◌==◌, if◌then◌else◌,
}
use agent_machine.Common.Table.{
  find, upsert, merged, find-upsert, IsUnique, IsUnique-upsert, find-key,
}
use agent_machine.State.{
  Time, Platform, WorkerResult, ResultPayload, raw, encoded, Db, Result, ok, err, required,
  invalid_payload, result_key, Call, insert, Exec, ◌>>◌, call, reject_if, time_or, text_or,
}
use agent_machine.State.Holds.{Holds, Holds-check}

-- len(result.Payload) == 0
abbrev pub payload_or_empty : ResultPayload → ResultPayload
payload_or_empty (raw s) = raw (text_or "{}" s)
payload_or_empty (encoded p) = encoded p

-- json.Valid, which what json.Marshal encodes is
abbrev pub payload_is_valid : Platform → ResultPayload → Bool
payload_is_valid sys (raw s) = sys.json_valid s
payload_is_valid sys (encoded p) = true

abbrev pub defaulted_result : Time → WorkerResult → WorkerResult
defaulted_result clock r =
    let finished = time_or clock r.finished_at in
    record r {
      started_at = time_or clock r.started_at;
      finished_at = finished;
      updated_at = time_or finished r.updated_at;
      payload = payload_or_empty r.payload;
    }

-- ON CONFLICT(task_key) DO UPDATE: all columns but the key
unfoldable pub replace_result : WorkerResult → WorkerResult → WorkerResult
replace_result old new = record new { task_key = old.task_key }

unfoldable pub upsert_worker_result :
    Platform → (Call → Bool) → Time → WorkerResult → Exec (Unit {0})
unfolding upsert replace_result
upsert_worker_result sys fails clock r = do
  reject_if (r.task_key == "") (required "task_key")
  reject_if (r.role == "") (required "role")
  reject_if (r.status == "") (required "status")
  let new = defaulted_result clock r
  reject_if (not (payload_is_valid sys new.payload)) invalid_payload
  call (fails insert)
  λ db. (Result.ok tt, record db { results = upsert result_key replace_result new db.results })

-- the result of a task, as the readers of the results find it
unfoldable pub result_of : List WorkerResult → String → Option WorkerResult
unfolding find
result_of results key = find result_key key results

abbrev pub Stored : Time → WorkerResult → Db → Result (Unit {0}) × Db → Type 0
Stored clock r before (err e, after) = after ≡ before
Stored clock r before (ok u, after) =
    IsUnique result_key after.results
    × (after.tasks ≡ before.tasks)
    × ((j : String)
        → result_of after.results j ≡ (
            if r.task_key == j
            then some (defaulted_result clock r)
            else result_of before.results j))

replace_result-key : (new old : WorkerResult) → result_key (replace_result old new) ≡ result_key old
unfolding replace_result
replace_result-key new old = refl

merged_new :
    (clock : Time) (r : WorkerResult) (o : Option WorkerResult)
    → ((old : WorkerResult) → o ≡ some old → old.task_key ≡ r.task_key)
    → merged replace_result (defaulted_result clock r) o ≡ defaulted_result clock r
unfolding replace_result
merged_new clock r none named = refl
merged_new clock r (some old) named = rw (named old refl) refl

-- Whatever fails, a result that is refused changes nothing, and one that is stored is read back with its
-- defaults filled in, in place of the former result of its task; every other result and the tasks stay.
-- The results of the store have different keys.
pub upsert_worker_result-Stored :
    (sys : Platform) (fails : Call → Bool) (clock : Time) (r : WorkerResult) (db : Db)
    → IsUnique result_key db.results
    → Holds (Stored clock r db) (upsert_worker_result sys fails clock r) db
unfolding upsert_worker_result result_of
upsert_worker_result-Stored sys fails clock r db u =
    let new = defaulted_result clock r in
    let same = replace_result-key new in
    Holds-check _ _ db (λ e. refl)
      (Holds-check _ _ db (λ e. refl)
        (Holds-check _ _ db (λ e. refl)
          (Holds-check _ _ db (λ e. refl)
            (Holds-check _ _ db (λ e. refl)
              (record {
                at = (
                  IsUnique-upsert result_key replace_result new same db.results u,
                  refl,
                  λ j.
                      rw
                        (
                          find-upsert result_key replace_result new same j db.results,
                          merged_new clock r (find result_key r.task_key db.results)
                              (λ old h. find-key result_key r.task_key db.results old h),
                        )
                        refl,
                );
              })))))

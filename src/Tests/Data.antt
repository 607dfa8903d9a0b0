-- ===== src/Tests/Data.antt =====
-- A platform and a store for the examples.
use Prim.Native.Nat.{zero, suc}
use agent_machine.Common.{
  ℕ, ◌/◌, String, ◌≡◌, refl, arith, Bool, true, false, not, ◌&&◌, ◌||◌, List, [], ◌∷◌, ltb, eqb,
  map_codes, concat, ◌==◌,
}
use agent_machine.Common.Sort.{IsOrder}
use agent_machine.State.{
  Time, Platform, WorkerTask, Lease, DaemonHeartbeat, Db, Call, status_queued, status_claimed,
  status_reconciliation_needed,
}
use agent_machine.State.Rows.{HasUniqueKeys}
use agent_machine.State.Leases.Rows.{HasUniqueNames}

abbrev pub codes_before : List ℕ → List ℕ → Bool
codes_before [] [] = false
codes_before [] (y ∷ ys) = true
codes_before (x ∷ xs) [] = false
codes_before (x ∷ xs) (y ∷ ys) = ltb x y || (eqb x y && codes_before xs ys)

codes_before-asym : (xs ys : List ℕ) → codes_before xs ys ≡ true → codes_before ys xs ≡ false
codes_before-asym [] [] h = refl
codes_before-asym [] (y ∷ ys) h = refl
codes_before-asym (x ∷ xs) [] h = ground (arith, h)
codes_before-asym (x ∷ xs) (y ∷ ys) h = ground (arith, h, codes_before-asym xs ys)

codes_before-neg_trans :
    (xs ys zs : List ℕ)
    → codes_before ys xs ≡ false
    → codes_before zs ys ≡ false
    → codes_before zs xs ≡ false
codes_before-neg_trans [] [] [] h k = refl
codes_before-neg_trans [] [] (z ∷ zs) h k = k
codes_before-neg_trans [] (y ∷ ys) [] h k = ground (arith, h, k)
codes_before-neg_trans [] (y ∷ ys) (z ∷ zs) h k = ground (arith, h, k)
codes_before-neg_trans (x ∷ xs) [] [] h k = h
codes_before-neg_trans (x ∷ xs) [] (z ∷ zs) h k = ground (arith, h, k)
codes_before-neg_trans (x ∷ xs) (y ∷ ys) [] h k = ground (arith, h, k)
codes_before-neg_trans (x ∷ xs) (y ∷ ys) (z ∷ zs) h k =
    ground (arith, h, k, codes_before-neg_trans xs ys zs)

-- the order of the code points, which is that of the bytes in UTF-8
abbrev pub text_before : String → String → Bool
text_before s t = codes_before (map_codes (λ c. c) s) (map_codes (λ c. c) t)

pub text_before-IsOrder : IsOrder text_before
text_before-IsOrder = record {
  asym = λ s t. codes_before-asym (map_codes (λ c. c) s) (map_codes (λ c. c) t);
  neg_trans = λ s t u.
      codes_before-neg_trans (map_codes (λ c. c) s) (map_codes (λ c. c) t) (map_codes (λ c. c) u);
}

-- as many strokes as nanoseconds
abbrev pub strokes : ℕ → String
strokes zero = ""
strokes (suc n) = concat ("1" ∷ strokes n ∷ [])

abbrev pub platform : Platform
platform = record {
  julian = λ t. t / 2;
  format_time = strokes;
  text_lt = text_before;
  json_valid = λ s. not (s == "");
  event_id = λ e. concat (e.source ∷ " " ∷ e.event_type ∷ " " ∷ e.run_id ∷ []);
}

abbrev pub task : String → String → Time → String → WorkerTask
task key status available lease = record {
  task_key = key;
  role = "work";
  issue_key = "AM-1";
  issue_id = "1";
  attempt = 1;
  status = status;
  priority = 0;
  available_at = available;
  lease_name = lease;
  payload = "{}";
  created_at = 1;
  updated_at = available;
}

abbrev pub queued_task : WorkerTask
queued_task = task "a" status_queued 4 ""

abbrev pub claimed_task : WorkerTask
claimed_task = task "b" status_claimed 4 "lane"

abbrev pub broken_task : WorkerTask
broken_task = task "c" status_reconciliation_needed 4 ""

abbrev pub lease_of : String → Time → Time → Lease
lease_of owner acquired expires = record {
  name = "lane";
  scope = "lane";
  owner = owner;
  acquired_at = acquired;
  expires_at = expires;
  renewed_at = acquired;
  released_at = 0;
  release_reason = "";
}

abbrev pub beat : DaemonHeartbeat
beat = record {
  process_id = "host:1";
  lane_name = "lane";
  workflow_path = "";
  cycle_number = 1;
  last_success_at = 0;
  last_error = "";
  recovery_required = false;
  active_task_key = "";
  active_task_role = "";
  active_lease_name = "";
  active_task_started_at = 0;
  updated_at = 3;
}

abbrev pub store : Db
store = record {
  tasks = queued_task ∷ claimed_task ∷ broken_task ∷ [];
  results = [];
  leases = lease_of "host:1" 2 8 ∷ [];
  heartbeats = beat ∷ [];
  events = [];
  lease_reclaims = [];
}

pub store-HasUniqueKeys : HasUniqueKeys store.tasks
store-HasUniqueKeys = ((refl, (refl, tt)), ((refl, tt), (tt, tt)))

pub store-HasUniqueNames : HasUniqueNames store.leases
store-HasUniqueNames = (tt, tt)

abbrev pub broken : Call → Bool
broken Call.commit = true
broken _ = false

-- ===== src/State.antt =====
-- The rows, the errors and the actions of the state store, internal/state/store.go.
-- A `time.Time` is the nanoseconds since Go's zero time, so that 0 is the zero time, which the store
-- writes as the empty text. An error that the database returns is an entry of `fails`.
pub mod Holds
pub mod Rows
pub mod Tasks
pub mod Leases
pub mod Recovery
pub mod Results
pub mod Steps
use agent_machine.Common.{
  ℕ, String, ◌≡◌, refl, ◌⊎◌, inl, inr, Bool, not, ◌&&◌, List, ◌==◌, ltb, leb, eqb, if◌then◌else◌,
}

abbrev pub Time : Type 0
Time = ℕ

abbrev pub is_zero : Time → Bool
is_zero t = eqb t 0

-- A value of an encoded payload.
pub data Json : Type 0 where
  text : String → Json
  number : ℕ → Json
  flag : Bool → Json
  texts : List String → Json

abbrev pub Payload : Type 0
Payload = List (String × Json)

pub record Event : Type 0 where
  pub occurred_at : Time
  pub issue_key : String
  pub issue_id : String
  pub attempt : ℕ
  pub run_id : String
  pub source : String
  pub event_type : String
  pub payload : Payload

-- What the store takes from SQLite and from Go's library.
pub record Platform : Type 0 where
  -- the milliseconds by which `julianday` compares
  pub julian : Time → ℕ
  -- time.RFC3339Nano
  pub format_time : Time → String
  -- the order of TEXT columns
  pub text_lt : String → String → Bool
  -- json.Valid
  pub json_valid : String → Bool
  -- the SHA-256 name of an event
  pub event_id : Event → String

-- julianday(a) <= julianday(b), which does not hold where a side is the empty text
abbrev pub day_le : Platform → Time → Time → Bool
day_le sys a b = not (is_zero a) && not (is_zero b) && leb (sys.julian a) (sys.julian b)

-- julianday(a) > julianday(b)
abbrev pub day_gt : Platform → Time → Time → Bool
day_gt sys a b = not (is_zero a) && not (is_zero b) && ltb (sys.julian b) (sys.julian a)

abbrev pub status_queued : String
status_queued = "queued"

abbrev pub status_claimed : String
status_claimed = "claimed"

abbrev pub status_failed : String
status_failed = "failed"

abbrev pub status_reconciliation_needed : String
status_reconciliation_needed = "reconciliation_needed"

-- An `attempt` of 0 is stored as NULL and read back as 0.
pub record WorkerTask : Type 0 where
  pub task_key : String
  pub role : String
  pub issue_key : String
  pub issue_id : String
  pub attempt : ℕ
  pub status : String
  pub priority : ℕ
  pub available_at : Time
  pub lease_name : String
  pub payload : String
  pub created_at : Time
  pub updated_at : Time

pub record Lease : Type 0 where
  pub name : String
  pub scope : String
  pub owner : String
  pub acquired_at : Time
  pub expires_at : Time
  pub renewed_at : Time
  pub released_at : Time
  pub release_reason : String

pub record DaemonHeartbeat : Type 0 where
  pub process_id : String
  pub lane_name : String
  pub workflow_path : String
  pub cycle_number : ℕ
  pub last_success_at : Time
  pub last_error : String
  pub recovery_required : Bool
  pub active_task_key : String
  pub active_task_role : String
  pub active_lease_name : String
  pub active_task_started_at : Time
  pub updated_at : Time

pub data ResultPayload : Type 0 where
  raw : String → ResultPayload
  encoded : Payload → ResultPayload

pub record WorkerResult : Type 0 where
  pub task_key : String
  pub role : String
  pub lane_name : String
  pub issue_key : String
  pub issue_id : String
  pub attempt : ℕ
  pub status : String
  pub did_work : Bool
  pub reason : String
  pub error : String
  pub payload : ResultPayload
  pub started_at : Time
  pub finished_at : Time
  pub updated_at : Time

-- A row of `external_fact_snapshots` with the source 'lease'.
pub record LeaseReclaim : Type 0 where
  pub lease : String
  pub old_owner : String
  pub new_owner : String
  pub reason : String
  pub captured_at : Time

pub record Db : Type 0 where
  pub tasks : List WorkerTask
  pub results : List WorkerResult
  pub leases : List Lease
  pub heartbeats : List DaemonHeartbeat
  pub events : List Event
  pub lease_reclaims : List LeaseReclaim

abbrev pub task_key : WorkerTask → String
task_key t = t.task_key

abbrev pub result_key : WorkerResult → String
result_key r = r.task_key

abbrev pub lease_key : Lease → String
lease_key l = l.name

pub data Error : Type 0 where
  db_error : Error
  required : String → Error
  invalid_payload : Error
  lease_held : Error
  not_found : String → Error
  wrong_status : String → String → Error
  status_changed : String → Error
  not_positive : Error
  unavailable : Error

pub data Result (A : Type 0) : Type 0 where
  ok : A → Result A
  err : Error → Result A

pub Result-cases :
    {A : Type 0} (r : Result A) → ((a : A) × (r ≡ ok a)) ⊎ ((e : Error) × (r ≡ err e))
Result-cases (ok a) = inl (a, refl)
Result-cases (err e) = inr (e, refl)

-- The calls of the database that one operation makes, each of which may fail.
pub data Call : Type 0 where
  begin insert select update rows_affected read_back result event heartbeat lease commit : Call

abbrev pub Exec : Type 0 → Type 0
Exec A = Db → Result A × Db

abbrev pub continue : {A B : Type 0} → Db → (A → Exec B) → Result A → Result B × Db
continue db f (ok a) = f a db
continue db f (err e) = (err e, db)

-- A test or a call that may end the operation with an error.
pub data Check : Type 0 where
  pass : Check
  fail : Error → Check

infixl 10 ◌>>=◌ ◌>>◌
unfoldable pub ◌>>◌ : {B : Type 0} → Check → Exec B → Exec B
◌>>◌ c n db = elim c [ pass ↦ n db | fail e ↦ (err e, db) ]

unfoldable pub choose : {A : Type 0} → Bool → Exec A → Exec A → Exec A
choose b m n db = if b then m db else n db

-- The deferred `tx.Rollback()` undoes what was done before a return without a commit.
abbrev pub after_rollback : {A : Type 0} → Db → Db → Result A → Db
after_rollback before after (ok a) = after
after_rollback before after (err e) = before

abbrev pub roll_back : {A : Type 0} → Db → Result A × Db → Result A × Db
roll_back before (r, after) = (r, after_rollback before after r)

-- A call that returns an error has changed nothing.
abbrev pub call : Bool → Check
call failed = if failed then fail db_error else pass

unfoldable pub transact : {A : Type 0} → Bool → Exec A → Exec A
unfolding ◌>>◌
transact begin_fails body db = roll_back db ((call begin_fails >> body) db)

-- Opening this opens the other ways to put actions together.
unfoldable pub ◌>>=◌ : {A B : Type 0} → Exec A → (A → Exec B) → Exec B
unfolding ◌>>◌ choose transact
◌>>=◌ m f db = let (r, db') = m db in continue db' f r

abbrev pub pure : {A : Type 0} → A → Exec A
pure a db = (ok a, db)

abbrev pub raise : {A : Type 0} → Error → Exec A
raise e db = (err e, db)

abbrev pub gets : {A : Type 0} → (Db → A) → Exec A
gets f db = (ok (f db), db)

-- `if bad { return err }`
abbrev pub reject_if : Bool → Error → Check
reject_if bad e = if bad then fail e else pass

-- `if t.IsZero() { t = … }`
abbrev pub time_or : Time → Time → Time
time_or default t = if is_zero t then default else t

abbrev pub text_or : String → String → String
text_or default s = if s == "" then default else s

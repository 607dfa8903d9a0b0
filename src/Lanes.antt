-- ===== src/Lanes.antt =====
-- The loop of a lane, runContinuousLane of continuous.go.
-- `S` is the state of the world: what the lane's work, the passing of time and a cancellation change.
pub mod Laws
pub mod Turn
use Prim.Native.Nat.{zero, suc}
use agent_machine.Common.{
  ℕ, ◌+◌, String, Bool, true, false, not, ◌&&◌, ◌||◌, Option, none, some, List, [], ◌∷◌, ltb, leb,
  eqb, if◌then◌else◌,
}
use agent_machine.State.{Time}

pub record Lane : Type 0 where
  pub name : String
  pub idle_delay : Time
  pub continuous : Bool

-- The fields of continuousHeartbeat that the loop sets; `error` is none on a success.
pub record Heartbeat : Type 0 where
  pub lane_name : String
  pub cycle_number : ℕ
  pub error : Option String

pub data Ending : Type 0 where
  canceled : Ending
  failed : String → Ending
  completed : Ending
  unfinished : Ending

-- What a run of the loop did: the heartbeats that it recorded, in order, how it ended, and the world then.
pub record Trace (S : Type 0) : Type 0 where
  pub beats : List Heartbeat
  pub ending : Ending
  pub world : S

abbrev pub recorded : {S : Type 0} → Heartbeat → Trace S → Trace S
recorded beat t = record t { beats = beat ∷ t.beats }

abbrev pub ended : {S : Type 0} → Ending → S → Trace S
ended e s = record { beats = []; ending = e; world = s }

module _ {S : Type 0} (lane : Lane) (max_cycles : ℕ)
    -- lane.run: whether it did work, and its error
    (run : S → (Bool × Option String) × S)
    -- whether the context is done, before a round and while the lane sleeps
    (poll : S → Bool × S) (sleep : Time → S → Bool × S) where
  abbrev pub delay : Bool → Time
  delay did_work = if lane.continuous || not did_work then lane.idle_delay else 0

  -- the wait at the end of a round: whether the context is done
  unfoldable pub rest : Bool → S → Bool × S
  rest did_work s = if ltb 0 (delay did_work) then sleep (delay did_work) s else (false, s)

  -- `maxCycles > 0 && cycles >= maxCycles`
  unfoldable pub has_completed : ℕ → Bool
  has_completed cycles = ltb 0 max_cycles && leb max_cycles cycles

  abbrev pub beat : ℕ → Option String → Heartbeat
  beat cycle error = record { lane_name = lane.name; cycle_number = cycle; error = error }

  -- What follows a round that did no error, where `next` goes on with the loop.
  abbrev pub after_success : ℕ → Bool → S → (S → Trace S) → Trace S
  after_success cycle did_work s next =
      if has_completed cycle
      then ended Ending.completed s
      else (let (done, s') = rest did_work s in if done then ended Ending.canceled s' else next s')

  abbrev pub after_run : ℕ → Bool × Option String → S → (S → Trace S) → Trace S
  after_run cycle (did_work, some e) s next =
      recorded (beat cycle (some e)) (ended (Ending.failed e) s)
  after_run cycle (did_work, none) s next =
      recorded (beat cycle none) (after_success cycle did_work s next)

  -- The loop after `cycles` rounds. Without a maximum it need not end, so that it runs on fuel.
  unfoldable pub run_continuous_lane : ℕ → ℕ → S → Trace S
  unfolding rest has_completed
  run_continuous_lane zero cycles s = ended Ending.unfinished s
  run_continuous_lane (suc fuel) cycles s =
      let (done, s₁) = poll s in
      if done
      then ended Ending.canceled s₁
      else (let (outcome, s₂) = run s₁ in
          after_run (cycles + 1) outcome s₂ (run_continuous_lane fuel (cycles + 1)))

-- ===== src/Lanes/Laws.antt =====
-- A lane with a maximum of rounds stops.
use Prim.Native.Nat.{zero, suc}
use agent_machine.Common.{
  ℕ, ◌+◌, ◌≤◌, ◌<◌, String, ◌≡◌, refl, arith, Bool, true, false, not, ◌&&◌, ◌||◌, Option, none,
  some, List, [], ◌∷◌, if_holds, eqb, length,
}
use agent_machine.State.{Time}
use agent_machine.Lanes.{
  Lane, Heartbeat, Ending, Trace, recorded, ended, rest, has_completed, after_success, after_run,
  run_continuous_lane,
}

abbrev pub is_finished : Ending → Bool
is_finished Ending.unfinished = false
is_finished _ = true

abbrev pub is_completed : Ending → Bool
is_completed Ending.completed = true
is_completed _ = false

-- the heartbeats number the rounds from `n` on
abbrev pub are_numbered : ℕ → List Heartbeat → Bool
are_numbered n [] = true
are_numbered n (b ∷ bs) = eqb b.cycle_number n && are_numbered (n + 1) bs

-- What is known of a run of the loop after `cycles` rounds.
pub record IsBounded {S : Type 0} (max_cycles cycles : ℕ) (t : Trace S) : Type 0 where
  pub finished : is_finished t.ending ≡ true
  pub numbered : are_numbered (cycles + 1) t.beats ≡ true
  pub bounded : cycles + length t.beats ≤ max_cycles
  pub all_done : (not (is_completed t.ending) || eqb (cycles + length t.beats) max_cycles) ≡ true

module _ {S : Type 0} (lane : Lane) (max_cycles : ℕ) (run : S → (Bool × Option String) × S)
    (poll : S → Bool × S) (sleep : Time → S → Bool × S) where
  ended-IsBounded :
      (cycles : ℕ) (e : Ending) (s : S)
      → is_finished e ≡ true
      → (not (is_completed e) || eqb cycles max_cycles) ≡ true
      → cycles ≤ max_cycles
      → IsBounded max_cycles cycles (ended e s)
  ended-IsBounded cycles e s h all low = record {
    finished = h;
    numbered = refl;
    bounded = omega (arith, low);
    all_done = ground (arith, all);
  }

  recorded-IsBounded :
      (cycles : ℕ) (error : Option String) (t : Trace S)
      → IsBounded max_cycles (cycles + 1) t
      → IsBounded max_cycles cycles
          (recorded (record { lane_name = lane.name; cycle_number = cycles + 1; error = error }) t)
  recorded-IsBounded cycles error t h = record {
    finished = h.finished;
    numbered = ground (arith, h.numbered);
    bounded = omega (arith, h.bounded);
    all_done = ground (arith, h.all_done);
  }

  -- the rest of a round, where the loop goes on only below the maximum
  success-IsBounded :
      (cycle : ℕ) (did_work : Bool) (s : S) (next : S → Trace S)
      → cycle ≤ max_cycles
      → 0 < max_cycles
      → ((s' : S) → cycle < max_cycles → IsBounded max_cycles cycle (next s'))
      → IsBounded max_cycles cycle
          (after_success lane max_cycles run poll sleep cycle did_work s next)
  unfolding has_completed
  success-IsBounded cycle did_work s next low positive go =
      let completed = has_completed lane max_cycles run poll sleep cycle in
      let (stopped, s') = rest lane max_cycles run poll sleep did_work s in
      if_holds (λ (t : Trace S). IsBounded max_cycles cycle t) completed _ _
        (λ e. ended-IsBounded cycle Ending.completed s refl (ground (arith, e, low)) low)
        (λ e.
          if_holds (λ (t : Trace S). IsBounded max_cycles cycle t) stopped _ _
            (λ _. ended-IsBounded cycle Ending.canceled s' refl refl low)
            (λ _. go s' (ground (arith, e, positive))))

  run-IsBounded :
      (cycle : ℕ) (outcome : Bool × Option String) (s : S) (next : S → Trace S)
      → cycle < max_cycles
      → ((s' : S) → cycle + 1 < max_cycles → IsBounded max_cycles (cycle + 1) (next s'))
      → IsBounded max_cycles cycle
          (after_run lane max_cycles run poll sleep (cycle + 1) outcome s next)
  run-IsBounded cycle (did_work, some e) s next below go =
      recorded-IsBounded cycle (some e) _
        (ended-IsBounded (cycle + 1) (Ending.failed e) s refl refl (omega (arith, below)))
  run-IsBounded cycle (did_work, none) s next below go = recorded-IsBounded cycle none _ (
      success-IsBounded (cycle + 1) did_work s next (omega (arith, below)) (omega (arith, below))
        go)

  loop-IsBounded :
      (fuel cycles : ℕ) (s : S)
      → cycles < max_cycles
      → max_cycles ≤ cycles + fuel
      → IsBounded max_cycles cycles
          (run_continuous_lane lane max_cycles run poll sleep fuel cycles s)
  unfolding run_continuous_lane
  loop-IsBounded zero cycles s below enough = absurd (omega (arith, below, enough))
  loop-IsBounded (suc fuel) cycles s below enough =
      let (stopped, s₁) = poll s in
      if_holds (λ (t : Trace S). IsBounded max_cycles cycles t) stopped _ _
        (λ _. ended-IsBounded cycles Ending.canceled s₁ refl refl (omega (arith, below)))
        (λ _.
          run-IsBounded cycles (run s₁).0 (run s₁).1 _ below
            (λ s' low. loop-IsBounded fuel (cycles + 1) s' low (omega (arith, enough))))

  -- A lane with a maximum of rounds stops: it is canceled, fails, or is completed, the last only after
  -- exactly so many rounds. It runs at most that many, and its heartbeats number them from 1 on. As much
  -- fuel as the maximum is enough.
  pub run_continuous_lane-IsBounded :
      (fuel : ℕ) (s : S)
      → 0 < max_cycles
      → max_cycles ≤ fuel
      → IsBounded max_cycles 0 (run_continuous_lane lane max_cycles run poll sleep fuel 0 s)
  run_continuous_lane-IsBounded fuel s positive enough =
      loop-IsBounded fuel 0 s positive (omega (arith, enough))

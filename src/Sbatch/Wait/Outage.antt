-- ===== src/Sbatch/Wait/Outage.antt =====
-- How `wait_completion_single` ends, whatever the server, the HPC and the other tasks do.
use hpc_relay.Base.{
  ℕ, zero, suc, ◌+◌, ◌*◌, ◌≤◌, ◌<◌, ◌≡◌, refl, true, false, Option, none, some, Bool-cases, inl,
  inr, arith,
}
use hpc_relay.Exec.{Outcome, returns, raises, Exec, handle}
use hpc_relay.Result.{Exc, op_error, Result, err}
use hpc_relay.Sbatch.Poll.{Poll, poll_completion_once}
use hpc_relay.Sbatch.Wait.{
  is_outage, gives_up, started_at, next_backoff, after_poll, bear_outage, after_raise, wait_loop,
  wait_completion_single, poll_interval_secs,
}
use hpc_relay.Sbatch.Wait.Time.{Since, poll_completion_once-Since}
use hpc_relay.Sbatch.World.{Env, World, now_utc, sleep}
use hpc_relay.Slurm.Types.{SlurmJobId, SlurmJobState}
use hpc_relay.Text.{Text}

-- The time on a task's clock.
abbrev pub time : Env → World → ℕ
time env w = env.clock w.events + w.slept

abbrev pub GoesForward : (ℕ → ℕ) → Type 0
GoesForward clock = (m n : ℕ) → m ≤ n → clock m ≤ clock n

-- An end of the wait that began at the time `t`.
pub data Ending (env : Env) (hpc : Text) (job_id : SlurmJobId) (t : ℕ)
    : Outcome Poll × World → Type 0 where
  out_of_fuel : (v : World) → Ending env hpc job_id t (returns none, v)
  polled :
      (r : Result SlurmJobState) (u v : World)
      → t ≤ time env u
      → poll_completion_once env hpc job_id u ≡ (returns (some r), v)
      → Ending env hpc job_id t (returns (some r), v)
  gave_up :
      (e : Exc) (v : World)
      → is_outage e ≡ true
      → t + 300 * 1000000 < time env v
      → Ending env hpc job_id t (returns (some (err (op_error e))), v)
  failed : (e : Exc) (v : World) → is_outage e ≡ false → Ending env hpc job_id t (raises e, v)

module _ (env : Env) (hpc : Text) (job_id : SlurmJobId) (forward : GoesForward env.clock)
    (t : ℕ) where
  Ends : Outcome Poll × World → Type 0
  Ends o = Ending env hpc job_id t o

  time-Since : (w v : World) → Since env w.events w.slept v → time env w ≤ time env v
  time-Since w v since = let later = forward w.events v.events since.events_since in ground arith

  time-poll : (w : World) → time env w ≤ time env (poll_completion_once env hpc job_id w).1
  time-poll w = time-Since w _ (
      (poll_completion_once-Since env w.events w.slept hpc job_id).at w
        (record { events_since = ground arith; slept_since = ground arith }))

  time-sleep : (secs : ℕ) (w : World) → time env w ≤ time env (sleep env secs w).1
  unfolding sleep
  time-sleep secs w = let later = forward w.events (w.events + 1) (ground arith) in ground arith

  time-now : (w : World) → time env w ≤ time env (now_utc env w).1
  unfolding now_utc
  time-now w = let later = forward w.events (w.events + 1) (ground arith) in ground arith

  -- What the induction on the fuel gives for the rounds to come.
  Again : (Option ℕ → ℕ → Exec World Poll) → Type 0
  Again again =
      (started : Option ℕ) (backoff : ℕ) (w : World)
      → t ≤ time env w
      → ((now : ℕ) → t ≤ now → t ≤ started_at started now)
      → Ends (again started backoff w)

  after_poll-Ends :
      (again : Option ℕ → ℕ → Exec World Poll)
      → Again again
      → (r : Poll) (w v : World) → t ≤ time env w
      → t ≤ time env v
      → poll_completion_once env hpc job_id w ≡ (returns r, v)
      → Ends (after_poll env hpc job_id again r v)
  unfolding Again Ends after_poll sleep
  after_poll-Ends again goes_on (some r) w v tw tv answered = polled r w v tw answered
  after_poll-Ends again goes_on none w v tw tv answered =
      goes_on none 5 (sleep env 5 v).1 (let more = time-sleep 5 v in ground arith) (λ now h. h)

  bear_outage-Ends :
      (again : Option ℕ → ℕ → Exec World Poll)
      → Again again
      → (started backoff : ℕ) (e : Exc) (now : ℕ) (v : World) → is_outage e ≡ true
      → t ≤ started
      → now ≤ time env v
      → t ≤ time env v
      → Ends (bear_outage env hpc job_id again started backoff e now v)
  unfolding Again Ends bear_outage sleep
  bear_outage-Ends again goes_on started backoff e now v outage ts nv tv =
      elim (Bool-cases (gives_up started now)) [
        | inl h ↦ rw h (gave_up e _ outage (ground arith))
        | inr h ↦ rw h (
            goes_on (some started) (next_backoff backoff) (sleep env backoff v).1
              (let more = time-sleep backoff v in ground arith) (λ now h. ts))
      ]

  after_raise-Ends :
      (again : Option ℕ → ℕ → Exec World Poll)
      → Again again
      → (started : Option ℕ) (backoff : ℕ) (e : Exc) (v : World) → t ≤ time env v
      → ((now : ℕ) → t ≤ now → t ≤ started_at started now)
      → Ends (after_raise env hpc job_id again started backoff e v)
  unfolding Ends after_raise now_utc
  after_raise-Ends again goes_on started backoff e v tv ts = elim (Bool-cases (is_outage e)) [
    | inl h ↦ rw h (
        bear_outage-Ends again goes_on (started_at started (time env v)) backoff e (time env v)
          (now_utc env v).1 h (ts (time env v) tv) (time-now v)
          (let more = time-now v in ground arith))
    | inr h ↦ rw h (failed e v h)
  ]

  round-Ends :
      (again : Option ℕ → ℕ → Exec World Poll)
      → Again again
      → (started : Option ℕ) (backoff : ℕ) (w : World) → t ≤ time env w
      → ((now : ℕ) → t ≤ now → t ≤ started_at started now)
      → (o : Outcome Poll × World) → poll_completion_once env hpc job_id w ≡ o
      → t ≤ time env o.1
      → Ends (
          handle o
            (after_poll env hpc job_id again)
            (after_raise env hpc job_id again started backoff))
  round-Ends again goes_on started backoff w tw ts (returns r, v) answered tv =
      after_poll-Ends again goes_on r w v tw tv answered
  round-Ends again goes_on started backoff w tw ts (raises e, v) answered tv =
      after_raise-Ends again goes_on started backoff e v tv ts

  wait_loop-Ends : (fuel : ℕ) → Again (wait_loop env hpc job_id fuel)
  unfolding Again Ends wait_loop
  wait_loop-Ends zero started backoff w tw ts = out_of_fuel w
  wait_loop-Ends (suc fuel) started backoff w tw ts =
      round-Ends (wait_loop env hpc job_id fuel) (wait_loop-Ends fuel) started backoff w tw ts
        (poll_completion_once env hpc job_id w) refl (let more = time-poll w in ground arith)

-- Provided that the clock goes forward, the wait of one job ends in one of three ways, whatever the
-- server, the HPC and the other tasks do: with the answer of a round of polling, made after the wait
-- began; with the error of an outage, and then more than 300 seconds after the wait began; or by an
-- exception that is none of an outage. Else its fuel, one unit a round, was spent.
pub wait_completion_single-Ending :
    (env : Env) (hpc : Text) (job_id : SlurmJobId) (fuel : ℕ) (w : World)
    → GoesForward env.clock
    → Ending env hpc job_id (time env w) (wait_completion_single env hpc job_id fuel w)
unfolding wait_completion_single Ends Again
wait_completion_single-Ending env hpc job_id fuel w forward =
    wait_loop-Ends env hpc job_id forward (time env w) fuel none poll_interval_secs w (ground arith)
      (λ now h. h)

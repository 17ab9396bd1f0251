-- ===== src/Sbatch/Wait.antt =====
-- `wait_completion_single` of _sbatch.py. The loop has fuel, one unit for each round, and answers
-- `none` where the fuel ends.
pub mod Time
pub mod Outage
pub mod Down
use hpc_relay.Base.{
  ℕ, zero, suc, ◌+◌, ◌-◌, ◌*◌, Bool, true, false, Option, none, some, if◌then◌else◌, ltb, min,
}
use hpc_relay.Exec.{Outcome, returns, raises, Exec, pure, raise, ◌>>=◌, ◌>>◌, catch}
use hpc_relay.Result.{Exc, http_error, os_error, file_not_found, op_error, Result, ok, err}
use hpc_relay.Sbatch.Poll.{Poll, poll_completion_once}
use hpc_relay.Sbatch.World.{Env, World, now_utc, sleep}
use hpc_relay.Slurm.Types.{SlurmJobId, SlurmJobState}
use hpc_relay.Text.{Text}

-- `_POLL_INTERVAL_SECS`
abbrev pub poll_interval_secs : ℕ
poll_interval_secs = 5

-- `_API_OUTAGE_TOLERANCE_SECS`
abbrev pub outage_tolerance_secs : ℕ
outage_tolerance_secs = 300

-- `_API_OUTAGE_MAX_BACKOFF_SECS`
abbrev pub outage_max_backoff_secs : ℕ
outage_max_backoff_secs = 60

-- isinstance(e, (httpx.HTTPError, OSError)); a `FileNotFoundError` is an `OSError`
unfoldable pub is_outage : Exc → Bool
is_outage (http_error n) = true
is_outage (os_error n) = true
is_outage (file_not_found p) = true
is_outage _ = false

-- elapsed > _API_OUTAGE_TOLERANCE_SECS, in microseconds; a clock that went back has 0 elapsed.
abbrev pub gives_up : ℕ → ℕ → Bool
gives_up started now = ltb (outage_tolerance_secs * 1000000) (now - started)

abbrev pub started_at : Option ℕ → ℕ → ℕ
started_at none now = now
started_at (some t) now = t

abbrev pub next_backoff : ℕ → ℕ
next_backoff backoff = min (backoff * 2) outage_max_backoff_secs

module _ (env : Env) (hpc : Text) (job_id : SlurmJobId) where
  -- A round that was polled: an answer ends the loop, and the outage is over.
  unfoldable pub after_poll : (Option ℕ → ℕ → Exec World Poll) → Poll → Exec World Poll
  unfolding sleep
  after_poll again (some r) = pure (some r)
  after_poll again none = sleep env poll_interval_secs >> again none poll_interval_secs

  -- In an outage that began at `started`: give up, or sleep and go on with a longer backoff.
  unfoldable pub bear_outage : (Option ℕ → ℕ → Exec World Poll) → ℕ → ℕ → Exc → ℕ → Exec World Poll
  unfolding sleep
  bear_outage again started backoff e now =
      if gives_up started now
      then pure (some (err (op_error e)))
      else (sleep env backoff >> again (some started) (next_backoff backoff))

  -- A round that raised.
  unfoldable pub after_raise :
      (Option ℕ → ℕ → Exec World Poll) → Option ℕ → ℕ → Exc → Exec World Poll
  unfolding now_utc bear_outage is_outage
  after_raise again outage_started backoff e =
      if is_outage e
      then (now_utc env >>= λ now. bear_outage again (started_at outage_started now) backoff e now)
      else raise e

  unfoldable pub wait_loop : ℕ → Option ℕ → ℕ → Exec World Poll
  unfolding after_poll after_raise poll_completion_once
  wait_loop zero outage_started backoff = pure none
  wait_loop (suc fuel) outage_started backoff =
      catch (poll_completion_once env hpc job_id) (after_poll (wait_loop fuel))
        (after_raise (wait_loop fuel) outage_started backoff)

  unfoldable pub wait_completion_single : ℕ → Exec World Poll
  unfolding wait_loop
  wait_completion_single fuel = wait_loop fuel none poll_interval_secs

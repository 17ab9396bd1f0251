-- ===== src/Sbatch/Guard.antt =====
-- `_flow_cancellation_guard` of _sbatch.py.
pub mod Ends
pub mod Commands
use hpc_relay.Base.{Bool, true, false, List, [], ◌∷◌, Option, none, some, if◌then◌else◌, is_zero}
use hpc_relay.Exec.{Outcome, returns, raises, Exec, pure, ◌>>=◌, ◌>>◌}
use hpc_relay.Result.{
  Exc, runtime_error, scancel_failed, object_not_found, OpError, Result, ok, err,
}
use hpc_relay.Runner.Types.{Command, CommandResult, argv}
use hpc_relay.Sbatch.Variables.{truthy, set_status, list_status_payloads}
use hpc_relay.Sbatch.World.{
  Status, cancelling, JobStatus, FlowRead, to_cancel, other_state, not_found, broken, Env, World,
  run_cmd, read_flow_run,
}
use hpc_relay.Slurm.Types.{SlurmJobId}
use hpc_relay.Text.{Text, codes, same}

-- A user's signal: the state is Cancelling or Cancelled, or the flow run is deleted.
unfoldable pub is_signal : FlowRead → Bool
is_signal to_cancel = true
is_signal not_found = true
is_signal other_state = false
is_signal (broken e) = false

-- p.flow_run_id == flow_run_id_str
unfoldable pub belongs : Text → Option Text → Bool
belongs flow_run_id none = false
belongs flow_run_id (some owner) = same owner flow_run_id

-- [p.job_id for p in payloads if p.flow_run_id == flow_run_id_str]
unfoldable pub own_ids : Text → List JobStatus → List SlurmJobId
unfolding belongs
own_ids flow_run_id [] = []
own_ids flow_run_id (p ∷ ps) =
    let rest = own_ids flow_run_id ps in
    if belongs flow_run_id p.flow_run_id then p.job_id ∷ rest else rest

unfoldable pub scancel_command : List SlurmJobId → Command
scancel_command ids = record {
  command = argv (codes "scancel" ∷ ids);
  working_directory = none;
  env_vars = none;
}

-- What is made of scancel's answer.
unfoldable pub scancel_result : List SlurmJobId → Result CommandResult → Result (List SlurmJobId)
scancel_result ids (err e) = err e
scancel_result ids (ok res) =
    if is_zero res.return_code
    then ok ids
    else err (record {
      err = runtime_error (scancel_failed ids);
      stdout = some res.stdout;
      stderr = some res.stderr;
      return_code = some res.return_code;
    })

module _ (env : Env) (hpc : Text) where
  -- for jid in job_ids: await _set_status(runner.hpc, jid, "CANCELLING")
  unfoldable pub mark_all : List SlurmJobId → Exec World (Unit {0})
  unfolding set_status
  mark_all [] = pure tt
  mark_all (id ∷ ids) = set_status env hpc id cancelling >> mark_all ids

  unfoldable pub cancel_all : List SlurmJobId → Exec World (Result (List SlurmJobId))
  unfolding run_cmd scancel_command scancel_result
  cancel_all [] = pure (ok [])
  cancel_all (id ∷ ids) = do
    res ← run_cmd env (scancel_command (id ∷ ids))
    pure (scancel_result (id ∷ ids) res)

  -- Steps 2 and 3, on the jobs of the flow run.
  unfoldable pub fold_jobs : Text → Exec World (Result (List SlurmJobId))
  unfolding list_status_payloads mark_all cancel_all own_ids
  fold_jobs flow_run_id = do
    payloads ← list_status_payloads env hpc
    let ids = own_ids flow_run_id payloads
    mark_all ids
    cancel_all ids

  -- Step 1; no flow run and no signal are an empty list.
  unfoldable pub guard_in : Option Text → Exec World (Result (List SlurmJobId))
  unfolding fold_jobs read_flow_run is_signal
  guard_in none = pure (ok [])
  guard_in (some flow_run_id) = do
    answer ← read_flow_run env
    if is_signal answer then fold_jobs flow_run_id else pure (ok [])

  unfoldable pub flow_cancellation_guard : Exec World (Result (List SlurmJobId))
  unfolding guard_in truthy
  flow_cancellation_guard = guard_in (truthy env.flow_run_id)

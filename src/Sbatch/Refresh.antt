-- ===== src/Sbatch/Refresh.antt =====
-- `_ensure_concurrency_limit` and `_try_update_status` of _sbatch.py.
pub mod History
pub mod Commands
pub mod Lease
pub mod OnBoard
pub mod Slot
pub mod Asked
pub mod Recorded
use hpc_relay.Base.{
  Bool, true, false, not, List, [], ◌∷◌, ◌++◌, Option, none, some, if◌then◌else◌, any,
}
use hpc_relay.Exec.{Outcome, returns, raises, Exec, pure, ◌>>=◌, ◌>>◌, catch, raise}
use hpc_relay.Result.{Exc, OpError, Result, ok, err}
use hpc_relay.Sbatch.Variables.{set_status, list_running_job_ids, lease_expired, write_lease}
use hpc_relay.Sbatch.World.{
  Status, slurm, Env, World, Variable, api_read, api_write, run_cmd, sleep,
}
use hpc_relay.Slurm.Sacct.{get_slurm_job_states}
use hpc_relay.Slurm.Types.{SlurmJobId, SlurmJobInfo}
use hpc_relay.Text.{Text, codes, same}

-- f"sacct-refresh-{runner.hpc}"
unfoldable pub limit_name : Text → Text
limit_name hpc = codes "sacct-refresh-" ++ hpc

module _ (env : Env) where
  -- `_ensured_limits.add(name)`
  unfoldable pub remember : Text → Exec World (Unit {0})
  remember name w = (returns tt, record w { ensured = name ∷ w.ensured })

  -- The limit is created once by each process. An `ObjectAlreadyExists` is swallowed, so that the
  -- call fails for no other task's sake.
  unfoldable pub ensure_concurrency_limit : Text → Exec World (Unit {0})
  unfolding remember api_write same
  ensure_concurrency_limit name w =
      (if any (same name) w.ensured then pure tt else api_write env (λ vs. vs) >> remember name) w

  -- async with _async_concurrency(...): the slot is given back whatever the body does. Waiting for
  -- the slot is one event, in which the others act, and giving it back is another.
  unfoldable pub with_slot : {A : Type 0} → Exec World A → Exec World A
  unfolding api_write sleep
  with_slot body = do
    api_write env (λ vs. vs)
    catch body (λ a. sleep env 0 >> pure a) (λ e. sleep env 0 >> raise e)

module _ (env : Env) (hpc : Text) where
  -- The critical section: true if the lease was taken.
  unfoldable pub take_lease : Exec World Bool
  unfolding lease_expired write_lease
  take_lease = do
    expired ← lease_expired env hpc
    if expired then write_lease env hpc >> pure true else pure false

  -- for info in states_res: await _set_status(runner.hpc, info.job_id, info.state)
  unfoldable pub store_states : List SlurmJobInfo → Exec World (Unit {0})
  unfolding set_status
  store_states [] = pure tt
  store_states (i ∷ infos) = set_status env hpc i.job_id (slurm i.state) >> store_states infos

  -- An error of sacct is logged, and is no error of the refresh.
  unfoldable pub store_answer : Result (List SlurmJobInfo) → Exec World (Unit {0})
  unfolding store_states
  store_answer (err e) = pure tt
  store_answer (ok infos) = store_states infos

  unfoldable pub refresh_jobs : List SlurmJobId → Exec World (Unit {0})
  unfolding store_answer
  refresh_jobs [] = pure tt
  refresh_jobs (id ∷ ids) = do
    states_res ← get_slurm_job_states (run_cmd env) (id ∷ ids)
    store_answer states_res

  unfoldable pub refresh : Exec World (Unit {0})
  unfolding list_running_job_ids refresh_jobs
  refresh = do job_ids ← list_running_job_ids env hpc; refresh_jobs job_ids

  unfoldable pub try_update_status : Exec World (Unit {0})
  unfolding lease_expired ensure_concurrency_limit with_slot take_lease refresh limit_name
  try_update_status = do
    expired ← lease_expired env hpc
    if not expired then pure tt else do
      ensure_concurrency_limit env (limit_name hpc)
      taken ← with_slot env take_lease
      if taken then refresh else pure tt

-- ===== src/Sbatch/Task/Total.antt =====
-- `sbatch_try` raises nothing, and what each of its ends stands on.
use hpc_relay.Base.{ℕ, ◌≡◌, ◌||◌, Bool, true, false, Option, none, some}
use hpc_relay.Exec.{Outcome, returns, Exec, pure, handle}
use hpc_relay.Logs.{Logs}
use hpc_relay.Result.{Exc, value_error, no_job_name, op_error, ok, err}
use hpc_relay.Runner.Context.{CmdContext, runner_hpc}
use hpc_relay.Sbatch.Task.{Final, is_completed, as_final, sbatch, sbatch_try}
use hpc_relay.Sbatch.Task.Success.{
  Ran, Failure, SbatchEnd, done, failed_job, no_result, no_end, sbatch-SbatchEnd,
}
use hpc_relay.Sbatch.Wait.{wait_completion_single}
use hpc_relay.Sbatch.World.{Env, World}
use hpc_relay.Slurm.Types.{SlurmJobId, SlurmJob, SlurmJobResult}
use hpc_relay.Text.{Text}

module _ (env : Env) (loads : Text → Outcome Logs) (make_runner : Exec World (Unit {0}))
    (ctx : CmdContext) (fetch_output : Bool) (fuel : ℕ) where
  -- An end of `sbatch_try` for this job, from the world `w`.
  pub data TryEnd (w : World) : Option SlurmJob → Outcome Final × World → Type 0 where
    no_job : TryEnd w none (returns (some (err (op_error (value_error no_job_name)))), w)
    -- a result in the state that the wait has brought, whichever it is
    result :
        (job : SlurmJob) (r : SlurmJobResult) (v : World)
        → Ran env loads make_runner ctx job fetch_output fuel w r
        → TryEnd w (some job) (returns (some (ok r)), v)
    error :
        (job : SlurmJob) (e : Exc) (v : World)
        → Failure env loads make_runner ctx job fetch_output fuel w e v
        → TryEnd w (some job) (returns (some (err (op_error e))), v)
    unfinished :
        (job : SlurmJob) (id : SlurmJobId) (from v : World)
        → wait_completion_single env (runner_hpc ctx) id fuel from ≡ (returns none, v)
        → TryEnd w (some job) (returns none, v)

  accepts : (b : Bool) → (b || true) ≡ false → true ≡ false
  accepts true h = h
  accepts false h = h

  caught :
      (job : SlurmJob) (w : World) (o : Outcome (Option SlurmJobResult) × World)
      → SbatchEnd env loads make_runner ctx job fetch_output fuel true w o
      → TryEnd w (some job) (
          handle o
            (λ r. pure (as_final env loads make_runner ctx r))
            (λ e. pure (some (err (op_error e)))))
  unfolding as_final
  caught job w _ (done r v h q) = result job r v h
  caught job w _ (failed_job r v h q) = absurd (cc (accepts (is_completed r.status) q))
  caught job w _ (no_result e v h) = error job e v h
  caught job w _ (no_end id from v h) = unfinished job id from v h

  -- `sbatch_try` never raises. Without a job it gives an error and does nothing. With one it gives the
  -- result of a job that it has submitted and waited for, in whatever state the wait has brought, also
  -- a failed one; or as an error what the submission raised, the wait gave as its error, or the
  -- monitoring raised; only where the fuel of the wait ended does it give neither.
  pub sbatch_try-TryEnd :
      (job : Option SlurmJob) (w : World)
      → TryEnd w job (sbatch_try env loads make_runner ctx job fetch_output fuel w)
  unfolding sbatch_try
  sbatch_try-TryEnd none w = no_job
  sbatch_try-TryEnd (some job) w =
      caught job w (sbatch env loads make_runner ctx true job fetch_output fuel w)
        (sbatch-SbatchEnd env loads make_runner ctx job fetch_output fuel true w)

-- ===== src/Sbatch/Task.antt =====
-- The tasks of _sbatch.py: `sbatch_submit`, `_sbatch_try`, `sbatch` and `sbatch_try`, in a run that has
-- no cached results. The decorators are Prefect's; `json.loads` is a parameter.
pub mod Success
pub mod Total
mod Tests
use hpc_relay.Base.{ℕ, [], Bool, true, false, ◌||◌, Option, none, some, ◌++◌, ◌∷◌, if◌then◌else◌}
use hpc_relay.Exec.{
  Outcome, returns, raises, Exec, pure, raise, ◌>>=◌, ◌>>◌, catch, try_run, unwrap,
}
use hpc_relay.FilePath.{to_text}
use hpc_relay.Logs.{Logs, get_head_tail_logs}
use hpc_relay.Result.{
  no_job_name, value_error, slurm_terminal_error, OpError, op_error, Result, ok, err,
}
use hpc_relay.Runner.Context.{CmdContext, runner_hpc}
use hpc_relay.Sbatch.Artifact.{
  artifact_key, artifact_description, submission_markdown, format_output_section,
}
use hpc_relay.Sbatch.Poll.{Poll}
use hpc_relay.Sbatch.Variables.{set_status}
use hpc_relay.Sbatch.Wait.{wait_completion_single}
use hpc_relay.Sbatch.World.{Status, slurm, Artifact, Env, World, run_cmd, create_artifact}
use hpc_relay.Slurm.Submit.{submit_slurm}
use hpc_relay.Slurm.Types.{
  SlurmJob, SlurmJobResult, SlurmJobState, completed, pending, SlurmSubmissionResult,
}
use hpc_relay.Text.{Text, codes}

-- The final result, or none where the fuel of the wait ends.
abbrev pub Final : Type 0
Final = Option (Result SlurmJobResult)

-- status == "COMPLETED"
unfoldable pub is_completed : SlurmJobState → Bool
is_completed completed = true
is_completed _ = false

-- The job, from the `job` argument or from the keywords.
unfoldable pub requested : Option SlurmJob → Option Text → SlurmJob → Option SlurmJob
requested (some job) job_name keywords = some job
requested none none keywords = none
requested none (some name) keywords = some (record keywords { job_name = name })

abbrev pub final_result : SlurmSubmissionResult → SlurmJobState → SlurmJobResult
final_result sub state = record { job_id = sub.job_id; status = state; submission = sub }

-- `make_runner` is what `get_command_runner` comes to: the constructor of FirecREST's runner reads
-- credentials, and may raise.
module _ (env : Env) (loads : Text → Outcome Logs) (make_runner : Exec World (Unit {0}))
    (ctx : CmdContext) where
  -- `_sbatch_submit_async`
  unfoldable pub sbatch_submit_async : SlurmJob → Exec World SlurmSubmissionResult
  unfolding submit_slurm unwrap
  sbatch_submit_async job = do
    submission_result ← submit_slurm (run_cmd env) job ctx
    unwrap submission_result

  unfoldable pub sbatch_submit : SlurmJob → Exec World (Result SlurmSubmissionResult)
  unfolding sbatch_submit_async try_run
  sbatch_submit job = try_run (sbatch_submit_async job)

  unfoldable pub submission_artifact : SlurmJob → SlurmSubmissionResult → Text → Artifact
  unfolding artifact_key artifact_description submission_markdown runner_hpc
  submission_artifact job sub more = record {
    key = artifact_key job.job_name sub.job_id;
    markdown = submission_markdown job (runner_hpc ctx) sub ++ more;
    description = artifact_description sub.job_id (runner_hpc ctx);
  }

  -- The logs, in a second artifact with the key of the first. str(sub_res.stderr) is never empty.
  unfoldable pub show_output : SlurmJob → SlurmSubmissionResult → Bool → Exec World (Unit {0})
  unfolding get_head_tail_logs create_artifact submission_artifact format_output_section
  show_output job sub false = pure tt
  show_output job sub true = do
    output ← get_head_tail_logs (run_cmd env) loads (to_text sub.stdout) (some (to_text sub.stderr))
    create_artifact env (submission_artifact job sub (b'\n' ∷ format_output_section output))

  -- Behind the wait.
  unfoldable pub after_wait : SlurmJob → SlurmSubmissionResult → Bool → Poll → Exec World Final
  unfolding show_output
  after_wait job sub fetch_output none = pure none
  after_wait job sub fetch_output (some (err e)) = pure (some (err e))
  after_wait job sub fetch_output (some (ok state)) =
      show_output job sub fetch_output >> pure (some (ok (final_result sub state)))

  -- Behind the submission.
  unfoldable pub monitor : SlurmJob → Bool → SlurmSubmissionResult → (fuel : ℕ) → Exec World Final
  unfolding set_status create_artifact submission_artifact wait_completion_single after_wait
      runner_hpc
  monitor job fetch_output sub fuel = do
    make_runner
    set_status env (runner_hpc ctx) sub.job_id (slurm pending)
    create_artifact env (submission_artifact job sub [])
    state ← wait_completion_single env (runner_hpc ctx) sub.job_id fuel
    after_wait job sub fetch_output state

  -- `_sbatch_try`
  unfoldable pub sbatch_try_async : SlurmJob → Bool → (fuel : ℕ) → Exec World Final
  unfolding sbatch_submit_async monitor
  sbatch_try_async job fetch_output fuel =
      catch (sbatch_submit_async job) (λ sub. monitor job fetch_output sub fuel)
        (λ e. pure (some (err (op_error e))))

  -- What `sbatch` makes of the result.
  unfoldable pub judge : Bool → Final → Exec World (Option SlurmJobResult)
  unfolding is_completed
  judge accept_failure none = pure none
  judge accept_failure (some (err e)) = raise e.err
  judge accept_failure (some (ok r)) =
      if is_completed r.status || accept_failure
      then pure (some r)
      else raise (slurm_terminal_error r)

  unfoldable pub sbatch : Bool → SlurmJob → Bool → (fuel : ℕ) → Exec World (Option SlurmJobResult)
  unfolding sbatch_try_async judge
  sbatch accept_failure job fetch_output fuel = do
    res ← sbatch_try_async job fetch_output fuel
    judge accept_failure res

  -- `return sbatch(...)` as a `Result`
  unfoldable pub as_final : Option SlurmJobResult → Final
  as_final none = none
  as_final (some r) = some (ok r)

  unfoldable pub sbatch_try : Option SlurmJob → Bool → (fuel : ℕ) → Exec World Final
  unfolding sbatch as_final
  sbatch_try none fetch_output fuel = pure (some (err (op_error (value_error no_job_name))))
  sbatch_try (some job) fetch_output fuel =
      catch (sbatch true job fetch_output fuel) (λ r. pure (as_final r))
        (λ e. pure (some (err (op_error e))))

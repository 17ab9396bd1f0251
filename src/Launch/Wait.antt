-- ===== src/Launch/Wait.antt =====
-- `wait_for_completion` of extra/launch_slurm.py: the jobs of a launch are awaited one after the other.
pub mod Waited
use hpc_relay.Base.{ℕ, suc, Bool, true, false, List, [], ◌∷◌, ◌++◌, Option, none, some, length}
use hpc_relay.Exec.{Outcome, Exec, pure, ◌>>=◌, ◌>>◌}
use hpc_relay.FilePath.{to_text, given_text}
use hpc_relay.Launch.Output.{output_md_section}
use hpc_relay.Launch.Run.{LaunchSlurm, or_none, entry}
use hpc_relay.Logs.{Logs, get_head_tail_logs}
use hpc_relay.Result.{Exc, op_error, Result, ok, err}
use hpc_relay.Runner.Merged.{lookup}
use hpc_relay.Sbatch.Artifact.{artifact_key_part, format_output_section, get_log}
use hpc_relay.Sbatch.Poll.{Poll}
use hpc_relay.Sbatch.Wait.{wait_completion_single}
use hpc_relay.Sbatch.World.{Artifact, Env, World, run_cmd, create_artifact}
use hpc_relay.Slurm.Types.{SlurmJobResult, SlurmJobState, SlurmSubmissionResult}
use hpc_relay.Text.{Text, codes}
use hpc_relay.Text.Decimal.{decimal}

-- The results, or none where the fuel of a wait ends.
abbrev pub Waits : Type 0
Waits = Option (Result (List SlurmJobResult))

abbrev pub result_of : SlurmSubmissionResult → SlurmJobState → SlurmJobResult
result_of sub state = record { job_id = sub.job_id; status = state; submission = sub }

-- `fuel` is that of each wait; `state_name` spells a state.
module _ (env : Env) (loads : Text → Outcome Logs) (state_name : SlurmJobState → Text) (hpc : Text)
    (ls : LaunchSlurm) (fetch_output : Bool) (fuel : ℕ) where
  unfoldable pub job_markdown : ℕ → SlurmSubmissionResult → SlurmJobState → Text
  unfolding entry or_none lookup decimal to_text
  job_markdown part sub state =
      codes "## WeatherGenerator slurm job\n\n"
      ++ (entry (codes "Run ID") ls.wg_run_id
          ++ (codes "- **Stage:** `"
              ++ (ls.stage
                  ++ (codes "` (part "
                      ++ (decimal part
                          ++ (b'/'
                              ∷ (decimal (length ls.slurm_jobs)
                                  ++ (codes ")\n"
                                      ++ (entry (codes "Job ID") sub.job_id
                                          ++ (entry (codes "HPC") hpc
                                              ++ (entry (codes "Status") (state_name state)
                                                  ++ (entry (codes "stdout") (to_text sub.stdout)
                                                      ++ (entry (codes "stderr")
                                                            (to_text sub.stderr)
                                                          ++ entry (codes "output log") (
                                                            or_none (
                                                            lookup sub.job_id
                                                            ls.output_logs)))))))))))))))

  -- The output log of the python job, if it has a path.
  unfoldable pub python_log : Option Text → Exec World Text
  unfolding get_head_tail_logs output_md_section get_log
  python_log none = pure []
  python_log (some log) = do
    py_output ← get_head_tail_logs (run_cmd env) loads log none
    pure (
        b'\n'
        ∷ (codes "## Python job output log\n\n"
            ++ (output_md_section (codes "output log (head)") (get_log (codes "head_out") py_output)
                ++ output_md_section (codes "output log (tail)")
                    (get_log (codes "tail_out") py_output))))

  -- What `fetch_output` adds. str(sub.stderr) is never empty.
  unfoldable pub fetched : Bool → SlurmSubmissionResult → Exec World Text
  unfolding get_head_tail_logs format_output_section python_log given_text lookup
  fetched false sub = pure []
  fetched true sub = do
    output ← get_head_tail_logs (run_cmd env) loads (to_text sub.stdout) (some (to_text sub.stderr))
    more ← python_log (given_text (lookup sub.job_id ls.output_logs))
    pure (b'\n' ∷ (format_output_section output ++ more))

  unfoldable pub part_artifact : ℕ → Text → Artifact
  unfolding artifact_key_part decimal
  part_artifact part markdown = record {
    key =
        codes "wg-"
        ++ (artifact_key_part ls.wg_run_id
            ++ (b'-' ∷ (artifact_key_part ls.stage ++ (codes "-part" ++ decimal part))));
    markdown = markdown;
    description =
        codes "wg run "
        ++ (ls.wg_run_id ++ (codes " stage " ++ (ls.stage ++ (codes " part " ++ decimal part))));
  }

  -- The artifact of a job that has ended.
  unfoldable pub publish : ℕ → SlurmSubmissionResult → SlurmJobState → Exec World (Unit {0})
  unfolding fetched job_markdown part_artifact create_artifact
  publish part sub state = do
    more ← fetched fetch_output sub
    create_artifact env (part_artifact part (job_markdown part sub state ++ more))

  -- Behind the wait for one job; `rest` awaits the others.
  unfoldable pub after_job :
      ℕ
      → SlurmSubmissionResult
      → (List SlurmJobResult → Exec World Waits)
      → List SlurmJobResult
      → Poll
      → Exec World Waits
  unfolding publish
  after_job part sub rest results none = pure none
  after_job part sub rest results (some (err e)) = pure (some (err e))
  after_job part sub rest results (some (ok state)) =
      publish part sub state >> rest (results ++ result_of sub state ∷ [])

  -- The loop over the jobs that are left.
  unfoldable pub wait_jobs : ℕ → List SlurmSubmissionResult → List SlurmJobResult → Exec World Waits
  unfolding wait_completion_single after_job
  wait_jobs part [] results = pure (some (ok results))
  wait_jobs part (sub ∷ subs) results = do
    state ← wait_completion_single env hpc sub.job_id fuel
    after_job part sub (wait_jobs (suc part) subs) results state

  -- `get_command_runner` gives an exception of its own for a context that it does not know, which
  -- `make_runner` returns; the constructor of a runner may raise.
  unfoldable pub after_runner : Option Exc → Exec World Waits
  unfolding wait_jobs
  after_runner (some e) = pure (some (err (op_error e)))
  after_runner none = wait_jobs 1 ls.slurm_jobs []

  -- `wait_for_completion`
  unfoldable pub wait_for_completion : Exec World (Option Exc) → Exec World Waits
  unfolding after_runner
  wait_for_completion make_runner = make_runner >>= after_runner

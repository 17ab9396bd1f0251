-- ===== src/Launch/Run.antt =====
-- `_launch_slurm_async` of extra/launch_slurm.py: the run of the launcher, and what is made of its output.
pub mod Launched
use hpc_relay.Base.{
  ℕ, suc, ◌+◌, Bool, List, [], ◌∷◌, ◌++◌, Option, none, some, if◌then◌else◌, take, is_zero, map, ℤ,
}
use hpc_relay.Exec.{Outcome, returns, raises, Exec, pure, ◌>>=◌, ◌>>◌, catch}
use hpc_relay.FilePath.{FilePath, to_path, to_text, join, given_text}
use hpc_relay.Launch.{LaunchSlurmOptions, stage_name, int_text, launch_command}
use hpc_relay.Launch.Output.{output_md_section}
use hpc_relay.Launch.Summary.{Summary, parse_launch_summary}
use hpc_relay.Result.{
  Exc, value_error, runtime_error, launcher_failed, no_summary, OpError, Result, ok, err,
}
use hpc_relay.Runner.Merged.{merge}
use hpc_relay.Runner.Types.{Command, CommandResult}
use hpc_relay.Sbatch.Artifact.{artifact_key_part}
use hpc_relay.Sbatch.World.{Artifact, Env, World, run_cmd, create_artifact}
use hpc_relay.Slurm.Types.{SlurmJobId, SlurmSubmissionResult}
use hpc_relay.Text.{Text, codes}
use hpc_relay.Text.Decimal.{decimal}
use hpc_relay.Text.Split.{join_with}

-- `LaunchSlurm`; the logs are a dictionary by job id.
pub record LaunchSlurm : Type 0 where
  pub wg_run_id : Text
  pub stage : Text
  pub slurm_jobs : List SlurmSubmissionResult
  pub wg_work_dir : Text
  pub output_logs : List (Text × Text)

-- str(o) of a text or none
unfoldable pub or_none : Option Text → Text
or_none none = codes "None"
or_none (some t) = t

-- f"- **{name}:** `{value}`\n"
unfoldable pub entry : Text → Text → Text
entry name value = codes "- **" ++ (name ++ (codes ":** `" ++ (value ++ codes "`\n")))

-- The first of two that Python takes for true, in short form; or "local".
unfoldable pub short_id : Option Text → Option Text → Text
unfolding given_text
short_id task_run flow_run = elim (given_text task_run) [
  | some id ↦ take 8 id
  | none ↦ elim (given_text flow_run) [ some id ↦ take 8 id | none ↦ codes "local" ]
]

unfoldable pub output_sections : Option Text → Option Text → Text
unfolding output_md_section
output_sections stdout stderr =
    output_md_section (codes "launch-slurm.py stdout") stdout
    ++ output_md_section (codes "launch-slurm.py stderr") stderr

-- `logs_dir`, and the files in it; parts are counted from one.
unfoldable pub logs_dir_of : Text → Text → FilePath
unfolding to_path join
logs_dir_of work_dir run_id =
    join (join (join (to_path work_dir) (codes "WeatherGenerator")) (codes "logs")) run_id

unfoldable pub part_file : ℕ → SlurmJobId → Text → Text
unfolding decimal
part_file part job_id suffix =
    codes "weathergen.part" ++ (decimal part ++ (b'.' ∷ (job_id ++ suffix)))

unfoldable pub slurm_jobs_from : FilePath → ℕ → List SlurmJobId → List SlurmSubmissionResult
unfolding part_file join
slurm_jobs_from logs_dir part [] = []
slurm_jobs_from logs_dir part (job_id ∷ job_ids) =
    (record {
      job_id = job_id;
      stdout = join logs_dir (part_file part job_id (codes ".out"));
      stderr = join logs_dir (part_file part job_id (codes ".err"));
    })
    ∷ slurm_jobs_from logs_dir (suc part) job_ids

unfoldable pub output_log : FilePath → SlurmJobId → Text
unfolding to_text join
output_log logs_dir job_id = to_text (join logs_dir (codes "output." ++ (job_id ++ codes ".txt")))

unfoldable pub launch_of : LaunchSlurmOptions → Summary → LaunchSlurm
unfolding slurm_jobs_from logs_dir_of output_log stage_name merge
launch_of launch (run_id, job_ids, work_dir) = record {
  wg_run_id = run_id;
  stage = stage_name launch.stage;
  slurm_jobs = slurm_jobs_from (logs_dir_of work_dir run_id) 1 job_ids;
  wg_work_dir = work_dir;
  output_logs =
      merge [] (map (λ job_id. (job_id, output_log (logs_dir_of work_dir run_id) job_id)) job_ids);
}

-- A row of the table of jobs. output_logs[job_id] is there for each of them.
unfoldable pub job_rows : FilePath → ℕ → List SlurmSubmissionResult → List Text
unfolding output_log to_text decimal
job_rows logs_dir part [] = []
job_rows logs_dir part (sub ∷ subs) =
    (codes "| "
      ++ (decimal part
          ++ (codes " | `"
              ++ (sub.job_id
                  ++ (codes "` | `"
                      ++ (to_text sub.stdout
                          ++ (codes "` | `"
                              ++ (to_text sub.stderr
                                  ++ (codes "` | `"
                                      ++ (output_log logs_dir sub.job_id ++ codes "` |"))))))))))
    ∷ job_rows logs_dir (suc part) subs

unfoldable pub launch_artifact : LaunchSlurmOptions → LaunchSlurm → CommandResult → Artifact
unfolding artifact_key_part entry or_none job_rows logs_dir_of output_sections
launch_artifact launch ls res = record {
  key = codes "wg-" ++ (artifact_key_part ls.wg_run_id ++ codes "-launch");
  markdown =
      codes "## WeatherGenerator launch-slurm\n\n"
      ++ (entry (codes "Run ID") ls.wg_run_id
          ++ (entry (codes "Stage") ls.stage
              ++ (entry (codes "From run ID") (or_none launch.from_run_id)
                  ++ (entry (codes "Work dir") ls.wg_work_dir
                      ++ (codes "\n### Jobs\n\n"
                          ++ (codes "| part | job id | stdout | stderr | output log |\n"
                              ++ (codes "| --- | --- | --- | --- | --- |\n"
                                  ++ (join_with (codes "\n") (
                                        job_rows (logs_dir_of ls.wg_work_dir ls.wg_run_id) 1
                                          ls.slurm_jobs)
                                      ++ (codes "\n\n"
                                          ++ output_sections (some res.stdout)
                                              (some res.stderr))))))))));
  description =
      codes "wg run " ++ (ls.wg_run_id ++ (codes " stage " ++ (ls.stage ++ codes " launch")));
}

-- An error with the output of the launcher.
unfoldable pub with_output : Exc → CommandResult → OpError
with_output e res = record {
  err = e;
  stdout = some res.stdout;
  stderr = some res.stderr;
  return_code = some res.return_code;
}

-- _parse_launch_summary(res.stdout) or _parse_launch_summary(res.stderr)
unfoldable pub parse_either : CommandResult → Outcome (Option Summary)
unfolding parse_launch_summary
parse_either res = elim (parse_launch_summary res.stdout) [
  | raises e ↦ raises e
  | returns none ↦ parse_launch_summary res.stderr
  | returns (some s) ↦ returns (some s)
]

-- `py_str` is `str` of an exception; `task_run_id` is that of the Prefect runtime.
module _ (env : Env) (py_str : Exc → Text) (task_run_id : Option Text)
    (launch : LaunchSlurmOptions) where
  unfoldable pub error_artifact : Text → Option Text → Option Text → Artifact
  unfolding artifact_key_part short_id entry or_none output_sections stage_name
  error_artifact error stdout stderr = record {
    key =
        codes "wg-launch-error-"
        ++ (artifact_key_part (stage_name launch.stage)
            ++ (b'-' ∷ artifact_key_part (short_id task_run_id env.flow_run_id)));
    markdown =
        codes "## WeatherGenerator launch-slurm FAILED\n\n"
        ++ (entry (codes "Stage") (stage_name launch.stage)
            ++ (entry (codes "From run ID") (or_none launch.from_run_id)
                ++ (codes "- **Error:** "
                    ++ (error ++ (codes "\n\n" ++ output_sections stdout stderr)))));
    description = codes "wg launch failure, stage " ++ stage_name launch.stage;
  }

  -- `_publish_launch_error_artifact`: an error of the API is passed over.
  unfoldable pub publish_launch_error_artifact :
      Text → Option Text → Option Text → Exec World (Unit {0})
  unfolding create_artifact error_artifact
  publish_launch_error_artifact error stdout stderr =
      catch (create_artifact env (error_artifact error stdout stderr)) pure (λ _. pure tt)

  -- A failure, once the launcher has ended.
  unfoldable pub fail_with : Text → Exc → CommandResult → Exec World (Result LaunchSlurm)
  unfolding publish_launch_error_artifact with_output
  fail_with error e res = do
    publish_launch_error_artifact error (some res.stdout) (some res.stderr)
    pure (err (with_output e res))

  unfoldable pub after_parse :
      CommandResult → Outcome (Option Summary) → Exec World (Result LaunchSlurm)
  unfolding fail_with launch_of launch_artifact create_artifact
  after_parse res (raises e) = fail_with (codes "malformed summary block: " ++ py_str e) e res
  after_parse res (returns none) =
      fail_with (codes "could not find a summary block in launch_slurm.py output")
        (value_error no_summary) res
  after_parse res (returns (some s)) = do
    create_artifact env (launch_artifact launch (launch_of launch s) res)
    pure (ok (launch_of launch s))

  unfoldable pub exit_text : ℤ → Text
  unfolding int_text
  exit_text code = codes "launch_slurm.py exited with return code " ++ int_text code

  unfoldable pub after_run : Result CommandResult → Exec World (Result LaunchSlurm)
  unfolding publish_launch_error_artifact fail_with after_parse parse_either exit_text
  after_run (err e) =
      publish_launch_error_artifact (codes "command failed: " ++ py_str e.err) e.stdout e.stderr
      >> pure (err e)
  after_run (ok res) =
      if is_zero res.return_code
      then after_parse res (parse_either res)
      else fail_with (exit_text res.return_code) (runtime_error (launcher_failed res.return_code))
          res

  -- `_launch_slurm_async`
  unfoldable pub launch_slurm : Exec World (Result LaunchSlurm)
  unfolding launch_command after_run
  launch_slurm = do res ← run_cmd env (launch_command launch); after_run res

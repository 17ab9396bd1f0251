-- ===== src/Sbatch/Task/Tests.antt =====
-- A run of `sbatch` from the submission to the terminal state.
use hpc_relay.Sbatch.Variables.{status_variable}
use hpc_relay.Slurm.Sacct.{
  collect, find, get_slurm_job_states, mem, read_row, read_rows, read_states, report,
}
use hpc_relay.Text.Chars.{is_decimal}
use hpc_relay.Text.Split.{partition, split_blank, split_lines}
use hpc_relay.Slurm.JobId.{is_job_id, parse_job_id}
use hpc_relay.Slurm.Submit.{
  check_paths, payload, read_submission, resolve_path, sbatch_command, stderr_path, stdout_path,
}
use hpc_relay.Base.{◌≡◌, refl, false, [], ◌∷◌, none, some, pos}
use hpc_relay.Exec.{Outcome, returns, pure}
use hpc_relay.FilePath.{str, path_of}
use hpc_relay.Logs.{Logs}
use hpc_relay.Result.{Result, ok}
use hpc_relay.Runner.Context.{CmdContext, simple_ssh}
use hpc_relay.Runner.Types.{CommandLine, shell, argv, CommandResult}
use hpc_relay.Sbatch.Artifact.{artifact_key, is_key_char}
use hpc_relay.Sbatch.Artifact.Key.{IsKey, artifact_key-IsKey}
use hpc_relay.Sbatch.Task.{sbatch, sbatch_try}
use hpc_relay.Sbatch.Task.Success.{SbatchEnd, sbatch-SbatchEnd}
use hpc_relay.Sbatch.Task.Total.{TryEnd, sbatch_try-TryEnd}
use hpc_relay.Sbatch.World.{other_state, Env, World, now_utc}
use hpc_relay.Slurm.Types.{SlurmJob, SlurmJobResult, completed, is_terminal_state, state_of}
use hpc_relay.Text.{Text, codes, same}

abbrev says : Text → Outcome (Result CommandResult)
says out = returns (ok (record { stdout = out; stderr = []; return_code = pos 0 }))

-- sbatch is a line of shell text, and sacct an argument list.
abbrev slurm_says : CommandLine → Outcome (Result CommandResult)
slurm_says (shell s) = says (codes "Submitted batch job 42\n")
slurm_says (argv args) = says (codes "42|COMPLETED\n")

abbrev slurm_env : Env
slurm_env = record {
  api = λ n. none;
  others = λ n vs. vs;
  flow_run = λ n. other_state;
  shell = λ n cmd. slurm_says cmd.command;
  clock = λ n. n;
  flow_run_id = some (codes "run-1");
  flow_name = none;
}

abbrev empty_world : World
empty_world = record { vars = []; events = 0; issued = []; slept = 0; ensured = []; artifacts = [] }

abbrev no_json : Text → Outcome Logs
no_json line = returns []

abbrev on_host : CmdContext
on_host = simple_ssh (record { host = codes "hpc"; account = none })

abbrev hello : SlurmJob
hello = record {
  job_name = codes "Hello World";
  stdout = some (str (codes "/scratch/out-%j"));
  stderr = none;
  script_path = none;
  command = some (shell (codes "echo hello"));
  working_directory = none;
  submission_directory = none;
  time_limit = none;
  slurm_options = none;
  account = none;
}

abbrev hello_result : SlurmJobResult
hello_result = record {
  job_id = codes "42";
  status = completed;
  submission = record {
    job_id = codes "42";
    stdout = record { root = codes "/"; parts = codes "scratch" ∷ codes "out-42" ∷ [] };
    stderr = record { root = codes "/"; parts = codes "scratch" ∷ codes "out-42" ∷ [] };
  };
}

hello_key :
    artifact_key (codes "Hello World") (codes "42") ≡ codes "slurm-submission-hello-world-42"
unfolding artifact_key is_key_char
hello_key = refl

artifact_key-IsKey_example : IsKey (artifact_key (codes "Hello World") (codes "42"))
artifact_key-IsKey_example = artifact_key-IsKey (codes "Hello World") (codes "42")

-- The job is submitted, found pending, refreshed by the lease's holder, and found completed.
hello_run :
    (sbatch slurm_env no_json (pure tt) on_host false hello false 2 empty_world).0
    ≡ returns (some hello_result)
unfolding sbatch check_paths stdout_path payload sbatch_command read_submission parse_job_id
    split_blank is_job_id is_decimal get_slurm_job_states read_states read_rows split_lines read_row
    partition state_of find mem collect report same is_terminal_state status_variable now_utc
    resolve_path path_of stderr_path
hello_run = refl

sbatch-SbatchEnd_example :
    SbatchEnd slurm_env no_json
      (pure tt)
      on_host
      hello
      false
      2
      false
      empty_world
      (sbatch slurm_env no_json (pure tt) on_host false hello false 2 empty_world)
sbatch-SbatchEnd_example =
    sbatch-SbatchEnd slurm_env no_json (pure tt) on_host hello false 2 false empty_world

sbatch_try-TryEnd_example :
    TryEnd slurm_env no_json
      (pure tt)
      on_host
      false
      2
      empty_world
      (some hello)
      (sbatch_try slurm_env no_json (pure tt) on_host (some hello) false 2 empty_world)
sbatch_try-TryEnd_example =
    sbatch_try-TryEnd slurm_env no_json (pure tt) on_host false 2 (some hello) empty_world

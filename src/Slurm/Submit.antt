-- ===== src/Slurm/Submit.antt =====
-- `submit_slurm` of hpc_relay/slurm.py, with `_is_absolute_or_remote_home_path` and
-- `_resolve_account`. `run_cmd` is a parameter.
pub mod Line
pub mod Branches
pub mod Success
use hpc_relay.Base.{
  ℕ, Bool, true, false, not, ◌||◌, ◌&&◌, List, [], ◌∷◌, ◌++◌, Option, none, some, ◌==◌,
  if◌then◌else◌,
}
use hpc_relay.Exec.{Outcome, returns, Exec, pure, ◌>>=◌}
use hpc_relay.FilePath
use hpc_relay.FilePath.{
  FilePath, StrOrPath, str, path, text_of, path_of, to_path, to_text, is_absolute, parent,
}
use hpc_relay.Result.{
  Exc, Reason, value_error, submission_error, relative_working_directory,
  relative_submission_directory, relative_script_path, no_stdout_path, no_script_or_command,
  op_error, Result, ok, err,
}
use hpc_relay.Runner.Context.{CmdContext, slurm_account}
use hpc_relay.Runner.Types.{CommandLine, shell, argv, Command, CommandResult}
use hpc_relay.Shell.Quote.{quote, quote_path, join, join_spaces, split_login}
use hpc_relay.Slurm.JobId.{parse_job_id}
use hpc_relay.Slurm.Types.{SlurmJobId, SlurmJob, SlurmSubmissionResult}
use hpc_relay.Text.{Text, codes, same}
use hpc_relay.Text.Split.{replace_pair}

-- `(?:/|$)`: a slash, the end, or a newline at the end
ends_prefix : Text → Bool
ends_prefix [] = true
ends_prefix (c ∷ []) = c == b'/' || c == b'\n'
ends_prefix (c ∷ d ∷ s) = c == b'/'

-- `_TILDE_ABSOLUTE_RE.match(s) is not None`
unfoldable pub matches_tilde : Text → Bool
unfolding ends_prefix split_login
matches_tilde [] = false
matches_tilde (c ∷ s) = c == b'~' && ends_prefix (split_login s).1

unfoldable pub is_absolute_or_remote_home_path : StrOrPath → Bool
unfolding matches_tilde is_absolute
is_absolute_or_remote_home_path p = is_absolute (to_path (text_of p)) || matches_tilde (text_of p)

-- The path requirements, in the order of the checks.
check_script : Option StrOrPath → Option StrOrPath → Option Reason
check_script none (some p) = if is_absolute (path_of p) then none else some (relative_script_path p)
check_script _ _ = none

check_submission : Option StrOrPath → Option Reason → Option Reason
check_submission none rest = rest
check_submission (some d) rest =
    if is_absolute (path_of d) then rest else some (relative_submission_directory d)

check_working : Option StrOrPath → Option Reason → Option Reason
check_working none rest = rest
check_working (some d) rest =
    if is_absolute_or_remote_home_path d then rest else some (relative_working_directory d)

unfoldable pub check_paths : SlurmJob → Option Reason
unfolding check_script check_submission check_working
check_paths job =
    check_working job.working_directory (
      check_submission job.submission_directory
        (check_script job.working_directory job.script_path))

-- f"slurm_job_{job.job_name}_%j.out"
abbrev pub default_name : SlurmJob → Text
default_name job = codes "slurm_job_" ++ (job.job_name ++ codes "_%j.out")

choose_stdout : Text → Option StrOrPath → Option StrOrPath → Option StrOrPath → Option FilePath
choose_stdout name (some p) d s = some (path_of p)
choose_stdout name none (some d) s = some (FilePath.join (path_of d) name)
choose_stdout name none none (some s) = some (FilePath.join (parent (path_of s)) name)
choose_stdout name none none none = none

unfoldable pub stdout_path : SlurmJob → Option FilePath
unfolding choose_stdout
stdout_path job = choose_stdout (default_name job) job.stdout job.working_directory job.script_path

choose_stderr : FilePath → Option StrOrPath → FilePath
choose_stderr out none = out
choose_stderr out (some p) = path_of p

unfoldable pub stderr_path : SlurmJob → FilePath → FilePath
unfolding choose_stderr
stderr_path job out = choose_stderr out job.stderr

unfoldable pub resolve_account : Option Text → CmdContext → Option Text
unfolding slurm_account same
resolve_account none ctx = none
resolve_account (some a) ctx = if same a (codes "auto") then slurm_account ctx else some a

-- The options, each a part of the line or two.
unfoldable pub path_option : Text → Option StrOrPath → List Text
path_option name none = []
path_option name (some p) = name ∷ quote_path (text_of p) ∷ []

-- f"--{name}={value}", with no quoting
unfoldable pub plain_option : Text → Option Text → List Text
plain_option name none = []
plain_option name (some v) = (codes "--" ++ (name ++ (b'=' ∷ v))) ∷ []

unfoldable pub slurm_option_parts : List (Text × Text) → List Text
slurm_option_parts [] = []
slurm_option_parts ((name, v) ∷ rest) =
    (codes "--" ++ (name ++ (b'=' ∷ v))) ∷ slurm_option_parts rest

unfoldable pub option_parts : Option (List (Text × Text)) → List Text
unfolding slurm_option_parts
option_parts none = []
option_parts (some os) = slurm_option_parts os

-- bool(script_path): a `Path` is true, a text if it is not empty
abbrev pub script_given : Option StrOrPath → Option StrOrPath
script_given none = none
script_given (some (str [])) = none
script_given (some (str (c ∷ s))) = some (str (c ∷ s))
script_given (some (path p)) = some (path p)

-- bool(command), and the text to wrap
abbrev pub wrap_value : Option CommandLine → Option Text
wrap_value none = none
wrap_value (some (shell [])) = none
wrap_value (some (shell (c ∷ s))) = some (c ∷ s)
wrap_value (some (argv [])) = none
wrap_value (some (argv (a ∷ args))) = some (join (a ∷ args))

-- The last part: the script, or the command to wrap.
unfoldable pub payload : Option StrOrPath → Option Text → Option Text
payload (some p) w = some (quote_path (text_of p))
payload none (some w) = some (codes "--wrap=" ++ quote w)
payload none none = none

-- `stderr_path` is `Path(job.stderr)` where there is one.
abbrev pub error_option : Option StrOrPath → Option StrOrPath
error_option none = none
error_option (some p) = some (path (path_of p))

unfoldable pub cmd_parts : SlurmJob → CmdContext → FilePath → Text → List Text
unfolding path_option plain_option option_parts resolve_account
cmd_parts job ctx out last =
    codes "sbatch"
    ∷ (codes "--job-name=" ++ quote job.job_name)
    ∷ codes "--output"
    ∷ quote_path (to_text out)
    ∷ (path_option (codes "--error") (error_option job.stderr)
        ++ (path_option (codes "--chdir") job.working_directory
            ++ (plain_option (codes "time") job.time_limit
                ++ (plain_option (codes "account") (resolve_account job.account ctx)
                    ++ (option_parts job.slurm_options ++ last ∷ [])))))

unfoldable pub sbatch_command : SlurmJob → CmdContext → FilePath → Text → Command
unfolding cmd_parts
sbatch_command job ctx out last = record {
  command = shell (join_spaces (cmd_parts job ctx out last));
  working_directory = job.submission_directory;
  env_vars = none;
}

-- Path(str(p).replace("%j", job_id).replace("%J", job_id))
unfoldable pub resolve_path : SlurmJobId → FilePath → FilePath
unfolding replace_pair to_text to_path
resolve_path id p = to_path (replace_pair b'%' b'J' id (replace_pair b'%' b'j' id (to_text p)))

submitted : SlurmJob → FilePath → CommandResult → Option SlurmJobId → Result SlurmSubmissionResult
submitted job out result none = err (op_error (submission_error result))
submitted job out result (some id) = ok (record {
  job_id = id;
  stdout = resolve_path id out;
  stderr = resolve_path id (stderr_path job out);
})

-- Behind `run_cmd`.
unfoldable pub read_submission :
    SlurmJob → FilePath → Result CommandResult → Result SlurmSubmissionResult
unfolding submitted
read_submission job out (err e) = err e
read_submission job out (ok result) = submitted job out result (parse_job_id result)

abbrev pub invalid : Reason → Result SlurmSubmissionResult
invalid r = err (op_error (value_error r))

module _ {S : Type 0} (run_cmd : Command → Exec S (Result CommandResult)) where
  unfoldable pub send :
      SlurmJob → CmdContext → FilePath → Option Text → Exec S (Result SlurmSubmissionResult)
  send job ctx out none = pure (invalid no_script_or_command)
  send job ctx out (some last) = do
    result ← run_cmd (sbatch_command job ctx out last)
    pure (read_submission job out result)

  unfoldable pub send_to :
      SlurmJob → CmdContext → Option FilePath → Exec S (Result SlurmSubmissionResult)
  unfolding send
  send_to job ctx none = pure (invalid no_stdout_path)
  send_to job ctx (some out) =
      send job ctx out (payload (script_given job.script_path) (wrap_value job.command))

  unfoldable pub submit_valid :
      SlurmJob → CmdContext → Option Reason → Exec S (Result SlurmSubmissionResult)
  unfolding send_to
  submit_valid job ctx (some reason) = pure (invalid reason)
  submit_valid job ctx none = send_to job ctx (stdout_path job)

  unfoldable pub submit_slurm : SlurmJob → CmdContext → Exec S (Result SlurmSubmissionResult)
  unfolding submit_valid
  submit_slurm job ctx = submit_valid job ctx (check_paths job)

-- ===== src/Ecaccess/Runner.antt =====
-- hpc_relay/cmd_runners/_ecmwf_ecaccess.py: a command as an ECaccess job.
use hpc_relay.Base.{
  ℕ, zero, suc, Bool, true, false, ◌||◌, List, [], ◌∷◌, ◌++◌, Option, none, some, if◌then◌else◌,
  pos,
}
use hpc_relay.Ecaccess.Client.{
  unlink, write_temp, sleep, Gateway, State, EcaccessClient, asks, release_token,
}
use hpc_relay.Ecaccess.Envelope.{SubmitArgs}
use hpc_relay.Ecaccess.Jobs.{finished, or_text, Row, JobRow, list_jobs, submit_job, get_job_output}
use hpc_relay.Exec.{Outcome, returns, raises, Exec, pure, raise, ◌>>=◌, ◌>>◌, and_then}
use hpc_relay.FilePath.{StrOrPath, text_of, FilePath, to_path, path_of}
use hpc_relay.Result.{runtime_error, job_not_found, op_error, Result, ok, err}
use hpc_relay.Runner.Context.{EcmwfEcaccessContext}
use hpc_relay.Runner.Types.{Command, CommandResult, CommandLine, shell, argv, EnvVars}
use hpc_relay.Shell.Quote.{quote, quote_path, join}
use hpc_relay.Text.{Text, codes, same}
use hpc_relay.Text.Split.{join_with}

cd_lines : Option StrOrPath → List Text
cd_lines none = []
cd_lines (some d) = (codes "cd " ++ quote_path (text_of d)) ∷ []

export_lines : EnvVars → List Text
export_lines [] = []
export_lines ((k, v) ∷ vars) = (codes "export " ++ (k ++ (b'=' ∷ quote v))) ∷ export_lines vars

env_lines : Option EnvVars → List Text
unfolding export_lines
env_lines none = []
env_lines (some vars) = export_lines vars

command_line : CommandLine → Text
command_line (shell s) = s
command_line (argv args) = join args

-- `_build_script`
unfoldable pub build_script : Command → Text
unfolding cd_lines env_lines command_line join_with
build_script cmd =
    join_with (b'\n' ∷ []) (
      codes "#!/bin/bash"
      ∷ codes "set -e"
      ∷ (cd_lines cmd.working_directory
          ++ (env_lines cmd.env_vars ++ command_line cmd.command ∷ [])))
    ++ b'\n' ∷ []

-- jobs[0].get("status", "")
unfoldable pub status_in : Row → Text
unfolding same
status_in [] = []
status_in ((name, value) ∷ row) =
    let rest = status_in row in if same name (codes "status") then value else rest

-- status in _TERMINAL_STATES
unfoldable pub is_terminal : Text → Bool
unfolding same
is_terminal status = same status (codes "DONE") || same status (codes "STOP")

-- `_POLL_INTERVAL_SECONDS`
abbrev pub poll_interval : ℕ
poll_interval = 10

-- The arguments that `run` gives to `submit_job`, the defaults of the others included.
abbrev pub plain_args : Text → SubmitArgs
plain_args script_path = record {
  script_path = script_path;
  queue = none;
  job_name = none;
  distant = false;
  event_ids = none;
  scheduled_date = none;
  no_directives = true;
  stderr_to_stdout = false;
  life_time = 7;
  retry_count = 0;
  retry_frequency = 600;
}

-- What the client is done with, or `none` where it waits on.
abbrev pub Waiting : Type 0 → Type 0
Waiting A = Option A

-- try: m  finally: cleanup, of code that may still be waiting.
abbrev pub cleaned_up :
    {A : Type 0} → Exec State (Unit {0}) → Outcome (Waiting A) × State → Outcome (Waiting A) × State
cleaned_up cleanup (returns none, s) = (returns none, s)
cleaned_up cleanup (returns (some a), s) = finished (returns (some a)) (cleanup s)
cleaned_up cleanup (raises e, s) = finished (raises e) (cleanup s)

-- A step of code that may still be waiting.
abbrev pub once : {A B : Type 0} → (A → Exec State B) → Waiting A → Exec State (Waiting B)
once f none s = (returns none, s)
once f (some a) s = and_then (f a s) (λ b. pure (some b))

-- except Exception as e: return OpError(err=e)
abbrev pub reported :
    {A : Type 0} → Outcome (Waiting (Result A)) × State → Outcome (Waiting (Result A)) × State
reported (returns a, s) = (returns a, s)
reported (raises e, s) = (returns (some (err (op_error e))), s)

module _ (g : Gateway) (c : EcaccessClient) where
  -- One round of the loop of `_wait_for_terminal`: the status, if it is terminal.
  unfoldable pub look : Text → List JobRow → Exec State (Option Text)
  unfolding status_in is_terminal
  look job_id [] = raise (runtime_error (job_not_found job_id))
  look job_id (job ∷ jobs) =
      if is_terminal (status_in job.fields)
      then pure (some (status_in job.fields))
      else (do asks g.flag (sleep poll_interval); pure none)

  unfoldable pub poll_once : Text → Exec State (Option Text)
  poll_once job_id = do jobs ← list_jobs g c (some job_id); look job_id jobs

  -- `_wait_for_terminal`. The loop has no bound of its own: `none` means that the rounds are over.
  unfoldable pub wait_for_terminal : ℕ → Text → Exec State (Option Text)
  wait_for_terminal zero job_id = pure none
  wait_for_terminal (suc rounds) job_id = do
    found ← poll_once job_id
    elim found [ none ↦ wait_for_terminal rounds job_id | some status ↦ pure (some status) ]

  -- `bytes.decode("utf-8", errors="replace")` is a parameter.
  module _ (decode : Text → Text) where
    -- The reading of the output, and the result.
    unfoldable pub collect : Text → Text → Exec State (Result CommandResult)
    unfolding same
    collect job_id status = do
      out ← get_job_output g c job_id (codes "output")
      err_text ← get_job_output g c job_id (codes "error")
      pure (
          ok (record {
            stdout = decode out;
            stderr = decode err_text;
            return_code = if same status (codes "DONE") then pos 0 else pos 1;
          }))

    -- The body of the inner `try`.
    unfoldable pub attend : ℕ → Text → Exec State (Waiting (Result CommandResult))
    attend rounds script_path = do
      job_id ← submit_job g c (plain_args script_path)
      status ← wait_for_terminal rounds job_id
      once (collect job_id) status

    -- The two `try` statements of `run`.
    unfoldable pub run_script : ℕ → Text → Exec State (Waiting (Result CommandResult))
    run_script rounds script = do
      script_path ← asks g.bytes (write_temp script)
      λ s.
          cleaned_up (asks g.flag (unlink (to_path script_path)) >> pure tt)
            (attend rounds script_path s)

    unfoldable pub run_client : ℕ → Text → Exec State (Waiting (Result CommandResult))
    run_client rounds script s =
        cleaned_up (release_token g c) (reported (run_script rounds script s))

-- `DEFAULT_GATEWAY`
abbrev pub default_gateway : Text
default_gateway = codes "boaccess.ecmwf.int"

-- `Path.expanduser` and `DEFAULT_CERT` depend on the user, and are parameters.
module _ (expanduser : FilePath → Outcome FilePath) (default_cert : FilePath) where
  unfoldable pub cert_of : EcmwfEcaccessContext → Outcome FilePath
  unfolding path_of
  cert_of ctx = elim ctx.cert_path [ none ↦ returns default_cert | some p ↦ expanduser (path_of p) ]

  unfoldable pub client_of : EcmwfEcaccessContext → FilePath → EcaccessClient
  unfolding or_text
  client_of ctx cert = record {
    cert_path = cert;
    https_host = or_text ctx.gateway default_gateway;
    http_host = or_text ctx.gateway default_gateway;
  }

  -- `run`; `none` means that the job is still running after so many rounds.
  unfoldable pub run :
      Gateway
      → (Text → Text)
      → EcmwfEcaccessContext
      → ℕ
      → Command
      → Exec State (Waiting (Result CommandResult))
  unfolding run_client cert_of client_of build_script
  run g decode ctx rounds cmd s =
      and_then (cert_of ctx, s)
        (λ cert. run_client g (client_of ctx cert) decode rounds (build_script cmd))

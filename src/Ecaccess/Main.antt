-- ===== src/Ecaccess/Main.antt =====
-- `main` of ecmwf_ecaccess_perl.py, from the parsed arguments on.
use hpc_relay.Base.{ℕ, Bool, List, [], ◌∷◌, ◌++◌, Option, none, some, if◌then◌else◌}
use hpc_relay.Ecaccess.Client.{
  write_file, write_out, say, Gateway, State, EcaccessClient, is_filled, asks, release_token,
  get_gateway_name, delete_job, restart_job,
}
use hpc_relay.Ecaccess.Envelope.{SubmitArgs}
use hpc_relay.Ecaccess.Jobs.{
  finally, or_text, list_operations, list_queues, list_jobs, submit_job, get_job_output,
}
use hpc_relay.Ecaccess.Print.{ops_lines, queues_lines, jobs_lines}
use hpc_relay.Exec.{Exec, pure, raise, ◌>>=◌, ◌>>◌, catch}
use hpc_relay.FilePath.{FilePath, to_text, to_path}
use hpc_relay.Result.{Exc, runtime_error, file_not_found, http_error}
use hpc_relay.Text.{Text, codes}

-- The subcommands with their arguments.
pub data Subcommand : Type 0 where
  gateway ops : Subcommand
  queues jobs : Option Text → Subcommand
  submit : SubmitArgs → Subcommand
  delete restart : Text → Subcommand
  get : Text → Bool → Bool → Option FilePath → Subcommand

-- os.environ.get(name, DEFAULT_GATEWAY)
or_default : Option Text → Text
or_default none = codes "boaccess.ecmwf.int"
or_default (some host) = host

-- The client of `main`: `cert` is the flag `--cert`, and `env` the environment.
unfoldable pub client_from : Option FilePath → (Text → Option Text) → FilePath → EcaccessClient
unfolding to_path or_default
client_from cert env default_cert = record {
  cert_path = elim cert [
    | some p ↦ p
    | none ↦ elim (env (codes "ECCERT")) [ none ↦ default_cert | some p ↦ to_path p ]
  ];
  https_host = or_default (env (codes "https_ecaccess"));
  http_host = or_default (env (codes "http_ecaccess"));
}

module _ (g : Gateway) (c : EcaccessClient) where
  abbrev info : Text → Exec State (Unit {0})
  info line = asks g.flag (say line) >> pure tt

  -- One `logger.info` for each line.
  unfoldable pub info_all : List Text → Exec State (Unit {0})
  info_all [] = pure tt
  info_all (line ∷ lines) = do info line; info_all lines

  -- The `match` of `main`.
  unfoldable pub dispatch : Subcommand → Exec State (Unit {0})
  unfolding or_text is_filled to_text
  dispatch gateway = do
    name ← get_gateway_name g c
    info (or_text (some name) (codes "(no response)"))
  dispatch ops = do rows ← list_operations g c; info_all (ops_lines rows)
  dispatch (queues detail) = do
    rows ← list_queues g c detail
    info_all (queues_lines (is_filled (or_text detail [])) rows)
  dispatch (jobs job_id) = do
    rows ← list_jobs g c job_id
    info_all (jobs_lines (is_filled (or_text job_id [])) rows)
  dispatch (submit args) = do job_id ← submit_job g c args; info job_id
  dispatch (delete job_id) = do delete_job g c job_id; info (codes "Deleted " ++ job_id)
  dispatch (restart job_id) = do restart_job g c job_id; info (codes "Restarted " ++ job_id)
  dispatch (get job_id error input none) = do
    content ←
        get_job_output g c job_id
          (if error then codes "error" else if input then codes "input" else codes "output")
    asks g.flag (write_out content)
    pure tt
  dispatch (get job_id error input (some output)) = do
    content ←
        get_job_output g c job_id
          (if error then codes "error" else if input then codes "input" else codes "output")
    asks g.flag (write_file output content)
    info (codes "Written to " ++ to_text output)

  -- `is_connect_error` says which of the HTTP errors is `httpx.ConnectError`.
  module _ (is_connect_error : ℕ → Bool) where
    -- The `except` clauses: a line on the log, without the text of the exception, and 1.
    unfoldable pub exit_code : Exc → Exec State ℕ
    exit_code (file_not_found name) = asks g.flag (say (codes "Error: ")) >> pure 1
    exit_code (runtime_error why) = asks g.flag (say (codes "Error: ")) >> pure 1
    exit_code (http_error n) =
        if is_connect_error n
        then asks g.flag (say (codes "Connection error: ")) >> pure 1
        else raise (http_error n)
    exit_code e = raise e

    unfoldable pub guarded : Subcommand → Exec State ℕ
    guarded command = catch (dispatch command) (λ _. pure 0) exit_code

    unfoldable pub main : Subcommand → Exec State ℕ
    main command = finally (guarded command) (release_token g c)

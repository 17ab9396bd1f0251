-- ===== src/Unicore/Runner.antt =====
-- `JscUnicoreCommandRunner.run` and `run_command_jsc` of _jsc.py.
use hpc_relay.Base.{ℕ, List, [], ◌∷◌, ◌++◌, Option, none, some, if◌then◌else◌, is_zero}
use hpc_relay.Exec.{Outcome, Exec, pure, raise, ◌>>=◌, catch}
use hpc_relay.FilePath.{StrOrPath, str, path, FilePath}
use hpc_relay.Result.{runtime_error, job_failed, op_error, Result, ok, err}
use hpc_relay.Runner.Context.{JscHpc, JscUnicoreContext}
use hpc_relay.Runner.Merged.{merge}
use hpc_relay.Runner.Remote.{build_unicore_command}
use hpc_relay.Runner.Types.{Command, CommandResult, EnvVars}
use hpc_relay.Text.{Text, codes}
use hpc_relay.Text.Chars.{is_space}
use hpc_relay.Text.Split.{strip}
use hpc_relay.Unicore.{
  JobDesc, Client, Call, read_file, Site, asks, Waiting, site_url_of, submit_and_wait,
}

abbrev pub interactive : Text
interactive = codes "UC_PREFER_INTERACTIVE_EXECUTION"

-- {"UC_PREFER_INTERACTIVE_EXECUTION": "true", **(cmd.env_vars or {})}
unfoldable pub environment_of : Option EnvVars → EnvVars
unfolding merge
environment_of none = (interactive, codes "true") ∷ []
environment_of (some env) = merge ((interactive, codes "true") ∷ []) env

-- if ctx.project: job_desc["Project"] = ctx.project
unfoldable pub project_of : Text → Option Text
project_of [] = none
project_of (c ∷ s) = some (c ∷ s)

-- `job_desc` of `_run`
unfoldable pub job_desc_of : JscUnicoreContext → Command → JobDesc
unfolding environment_of project_of build_unicore_command
job_desc_of ctx cmd = record {
  executable = codes "/bin/bash";
  arguments = codes "wg_command.sh" ∷ [];
  environment = environment_of cmd.env_vars;
  imported = some (build_unicore_command cmd ++ codes "\n");
  project = project_of ctx.project;
}

-- `expanduser` and `DEFAULT_TOKEN_FILE` depend on the user, and are parameters.
module _ (site : Site) (decode : Text → Text) (expanduser : FilePath → Outcome FilePath)
    (default_token : FilePath) where
  unfoldable pub token_in : FilePath → Exec (List Call) Text
  unfolding strip is_space
  token_in file = do
    found ← λ log. (expanduser file, log)
    content ← asks site.content (read_file found)
    pure (strip is_space content)

  -- `_load_token`
  unfoldable pub load_token : Option StrOrPath → Exec (List Call) Text
  load_token none = token_in default_token
  load_token (some (path file)) = token_in file
  load_token (some (str token)) = pure token

  -- `_make_client`
  unfoldable pub make_client : Option StrOrPath → JscHpc → Exec (List Call) Client
  unfolding site_url_of
  make_client token hpc = do
    bearer ← load_token token
    pure (record { token = bearer; site_url = site_url_of hpc })

  -- `_run`, and `run`: an error is returned. `none` means that the job is still running.
  unfoldable pub run_in : ℕ → JscUnicoreContext → Command → Exec (List Call) (Waiting CommandResult)
  unfolding job_desc_of
  run_in rounds ctx cmd = do
    client ← make_client ctx.token ctx.hpc
    submit_and_wait site decode rounds client (job_desc_of ctx cmd)

  abbrev pub settled : Waiting CommandResult → Waiting (Result CommandResult)
  settled none = none
  settled (some r) = some (ok r)

  unfoldable pub run :
      ℕ → JscUnicoreContext → Command → Exec (List Call) (Waiting (Result CommandResult))
  run rounds ctx cmd =
      catch (run_in rounds ctx cmd) (λ w. pure (settled w)) (λ e. pure (some (err (op_error e))))

  -- `run_command_jsc`: the output, or an error where the code is not zero.
  abbrev checked : Waiting CommandResult → Exec (List Call) (Waiting Text)
  checked none = pure none
  checked (some r) =
      if is_zero r.return_code
      then pure (some r.stdout)
      else raise (runtime_error (job_failed r.return_code))

  unfoldable pub run_command_jsc :
      ℕ → StrOrPath → JscHpc → Text → Text → Exec (List Call) (Waiting Text)
  unfolding project_of
  run_command_jsc rounds token hpc project command = do
    client ← make_client (some token) hpc
    result ← submit_and_wait site decode rounds client (record {
      executable = command;
      arguments = [];
      environment = (interactive, codes "true") ∷ [];
      imported = none;
      project = project_of project;
    })
    checked result

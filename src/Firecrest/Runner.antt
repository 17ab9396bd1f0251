-- ===== src/Firecrest/Runner.antt =====
-- `CscsFirecrestCommandRunner.run` of _cscs_firecrest.py.
use hpc_relay.Base.{Bool, List, [], ◌∷◌, ◌++◌, Option, none, some, ℤ, negsuc, if◌then◌else◌, ◌==◌}
use hpc_relay.Exec.{Outcome, returns, Exec, pure, raise, ◌>>=◌, ◌>>◌, catch}
use hpc_relay.FilePath.{StrOrPath, FilePath, text_of}
use hpc_relay.Firecrest.Answers.{Json, find_default_work_dir, find_username, extract_job_id}
use hpc_relay.Firecrest.{
  Client, new_run_id, systems, userinfo, submit, wait_for_job, view, close_session,
  create_new_session, Api, State, asks, refresh_client, credential_signature, set_signature,
  build_client, set_client,
}
use hpc_relay.FilePath.{given_text, given_path}
use hpc_relay.Result.{Exc, runtime_error, no_job_id, op_error, Result, ok, err}
use hpc_relay.Runner.Context.{CscsHpc, santis, alps, CscsFirecrestContext}
use hpc_relay.Runner.Types.{Command, CommandResult, CommandLine, shell, argv, EnvVars}
use hpc_relay.Shell.Quote.{quote, quote_path, join}
use hpc_relay.Text.{Text, codes}
use hpc_relay.Text.Chars.{is_space}
use hpc_relay.Text.Number.{int_of}
use hpc_relay.Text.Split.{strip, strip_right, join_with}

-- The name of a system, which the context spells as FirecREST does.
unfoldable pub system_name : CscsHpc → Text
system_name santis = codes "santis"
system_name alps = codes "alps"

cd_lines : Option StrOrPath → List Text
cd_lines none = []
cd_lines (some d) = (codes "cd " ++ quote_path (text_of d)) ∷ []

export_lines : EnvVars → List Text
export_lines [] = []
export_lines ((k, v) ∷ vars) = (codes "export " ++ (k ++ (b'=' ∷ quote v))) ∷ export_lines vars

env_lines : Option EnvVars → List Text
unfolding export_lines
env_lines none = []
env_lines (some vars) = export_lines vars

command_line : CommandLine → Text
command_line (shell s) = s
command_line (argv args) = join args

partition_lines : Option Text → List Text
partition_lines none = []
partition_lines (some p) = (codes "#SBATCH --partition=" ++ p) ∷ []

-- `_build_sbatch_script`
unfoldable pub build_sbatch_script : Command → Text → Text → Text → Option Text → Text → Text
unfolding cd_lines env_lines command_line partition_lines join_with given_text
build_sbatch_script cmd stdout_path stderr_path rc_path partition wall_time =
    join_with (b'\n' ∷ []) (
      codes "#!/bin/bash -l"
      ∷ (codes "#SBATCH --output=" ++ stdout_path)
      ∷ (codes "#SBATCH --error=" ++ stderr_path)
      ∷ codes "#SBATCH --nodes=1"
      ∷ codes "#SBATCH --ntasks=1"
      ∷ (codes "#SBATCH --time=" ++ wall_time)
      ∷ (partition_lines (given_text partition)
          ++ ([]
              ∷ (cd_lines cmd.working_directory
                  ++ (env_lines cmd.env_vars
                      ++ (command_line cmd.command
                          ∷ (codes "echo $? > " ++ quote rc_path)
                          ∷ []
                          ∷ []))))))

-- The directory that Slurm starts the script in.
working_dir_or : Text → Option StrOrPath → Text
working_dir_or scratch none = scratch
working_dir_or scratch (some d) = text_of d

unfoldable pub working_dir_of : Text → Option StrOrPath → Text
unfolding working_dir_or given_path
working_dir_of scratch d = working_dir_or scratch (given_path d)

-- The exit code that the file of the exit code shows.
unfoldable pub return_code_of : Text → ℤ
unfolding int_of strip is_space
return_code_of rc = elim (int_of rc) [ some n ↦ n | none ↦ negsuc 0 ]

abbrev pub set_scratch_dir : Text → Exec State (Unit {0})
set_scratch_dir d s = (returns tt, record s { scratch_dir = some d })

abbrev pub current_client : Exec State Client
current_client s = (returns s.client, s)

unfoldable pub set_known_scratch_dir : Option Text → Exec State (Unit {0})
set_known_scratch_dir d s = (returns tt, record s { scratch_dir = d })

-- `__init__`: the attributes of the state before it are not read.
unfoldable pub create :
    Api
    → (FilePath → Outcome FilePath)
    → (Text → Text)
    → CscsFirecrestContext
    → Exec State (Unit {0})
unfolding set_known_scratch_dir
create api expanduser sha256 ctx = do
  sig ← credential_signature api expanduser sha256 ctx
  set_signature sig
  client ← build_client api expanduser sha256 ctx
  set_client client
  set_known_scratch_dir ctx.scratch_dir

module _ (api : Api) where
  abbrev pub view_file : Text → Exec State Text
  view_file path = do client ← current_client; asks api.content (view client path)

  -- A fresh session; what goes wrong with it is passed over.
  unfoldable pub renew : Exec State (Unit {0})
  renew =
      catch
        (do
          client ← current_client
          asks api.flag (close_session client)
          asks api.flag (create_new_session client))
        (λ _. pure tt) (λ _. pure tt)

  unfoldable pub find_scratch_dir : CscsFirecrestContext → Exec State Text
  unfolding system_name find_default_work_dir find_username strip_right
  find_scratch_dir ctx = do
    client ← current_client
    list ← asks api.systems_list (systems client)
    base ← λ s. (find_default_work_dir (system_name ctx.hpc) list, s)
    answer ← asks api.info (userinfo client)
    username ← λ s. (find_username answer, s)
    let resolved = strip_right (λ c. c == b'/') base ++ (b'/' ∷ username)
    set_scratch_dir resolved
    pure resolved

  unfoldable pub scratch_dir_or_find : CscsFirecrestContext → Option Text → Exec State Text
  scratch_dir_or_find ctx (some d) = pure d
  scratch_dir_or_find ctx none = find_scratch_dir ctx

  -- `_get_scratch_dir`
  unfoldable pub get_scratch_dir : CscsFirecrestContext → Exec State Text
  unfolding scratch_dir_or_find
  get_scratch_dir ctx s = scratch_dir_or_find ctx s.scratch_dir s

  -- `is_firecrest` says which exceptions are `FirecrestException`.
  module _ (is_firecrest : Exc → Bool) where
    -- The second attempt: its exception is raised, after another renewal.
    unfoldable pub view_again : Text → Exec State Text
    view_again path =
        catch (view_file path) pure (λ e. if is_firecrest e then pure [] else (do renew; raise e))

    -- `_safe_view`
    unfoldable pub safe_view : Text → Exec State Text
    safe_view path =
        catch (view_file path) pure
          (λ e. if is_firecrest e then pure [] else (do renew; view_again path))

    -- The reading of the output.
    unfoldable pub read_back : Text → Text → Text → Exec State (Result CommandResult)
    unfolding strip is_space return_code_of
    read_back stdout_path stderr_path rc_path = do
      out ← safe_view stdout_path
      err_text ← safe_view stderr_path
      rc ← safe_view rc_path
      pure (
          ok (record {
            stdout = out;
            stderr = err_text;
            return_code = return_code_of (strip is_space rc);
          }))

    unfoldable pub await_job : Text → Text → Text → Text → Exec State (Result CommandResult)
    await_job [] stdout_path stderr_path rc_path = pure (err (op_error (runtime_error no_job_id)))
    await_job (c ∷ job_id) stdout_path stderr_path rc_path = do
      client ← current_client
      asks api.flag (wait_for_job client (c ∷ job_id))
      read_back stdout_path stderr_path rc_path

    -- `py_str` is `str` of a value.
    module _ (py_str : Json → Text) where
      -- `_run`
      unfoldable pub run_job : CscsFirecrestContext → Command → Exec State (Result CommandResult)
      unfolding await_job build_sbatch_script working_dir_of extract_job_id
      run_job ctx cmd = do
        scratch ← get_scratch_dir ctx
        run_id ← asks api.content new_run_id
        let name = λ (suffix : Text). scratch ++ (codes "/firecrest-" ++ (run_id ++ suffix))
        client ← current_client
        resp ← asks api.submitted (
            submit client (record {
              working_dir = working_dir_of scratch cmd.working_directory;
              script_str =
                  build_sbatch_script cmd (name (codes ".out")) (name (codes ".err"))
                    (name (codes ".rc")) ctx.partition ctx.wall_time;
              env_vars = cmd.env_vars;
              account = ctx.account;
            }))
        await_job (extract_job_id py_str resp) (name (codes ".out")) (name (codes ".err"))
            (name (codes ".rc"))

      -- `run`: the refresh of the client stands outside the `try`.
      unfoldable pub run :
          (FilePath → Outcome FilePath)
          → (Text → Text)
          → CscsFirecrestContext
          → Command
          → Exec State (Result CommandResult)
      run expanduser sha256 ctx cmd = do
        refresh_client api expanduser sha256 ctx
        catch (run_job ctx cmd) pure (λ e. pure (err (op_error e)))

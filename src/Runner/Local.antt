-- ===== src/Runner/Local.antt =====
-- hpc_relay/cmd_runners/_local.py: a command on the local machine.
use hpc_relay.Base.{Bool, true, false, Option, none, some}
use hpc_relay.Exec.{Outcome, Exec, pure, ◌>>=◌, catch}
use hpc_relay.FilePath.{StrOrPath, FilePath, path_of, given_path}
use hpc_relay.Runner.Merged.{merge}
use hpc_relay.Result.{op_error, Result, ok, err}
use hpc_relay.Runner.Types.{CommandLine, shell, argv, Command, CommandResult, EnvVars}

-- The arguments of `subprocess.run`.
pub record Process : Type 0 where
  pub args : CommandLine
  pub is_shell : Bool
  pub cwd : Option FilePath
  pub env : Option EnvVars

unfoldable pub env_of : EnvVars → Option EnvVars → Option EnvVars
unfolding merge
env_of environ none = none
env_of environ (some vars) = some (merge environ vars)

unfoldable pub by_shell : CommandLine → Bool
by_shell (shell s) = true
by_shell (argv args) = false

-- `os.environ`, `expanduser` and `subprocess.run` are parameters.
module _ {S : Type 0} (environ : EnvVars) (expanduser : FilePath → Outcome FilePath)
    (subprocess_run : Process → Exec S CommandResult) where
  unfoldable pub cwd_of : Option StrOrPath → Exec S (Option FilePath)
  unfolding path_of
  cwd_of none = pure none
  cwd_of (some d) = do found ← λ s. (expanduser (path_of d), s); pure (some found)

  -- `LocalCommandRunner.run`: the directory is resolved outside the `try`.
  unfoldable pub run_local : Command → Exec S (Result CommandResult)
  unfolding env_of by_shell cwd_of given_path
  run_local cmd = do
    cwd ← cwd_of (given_path cmd.working_directory)
    catch
        (subprocess_run (record {
          args = cmd.command;
          is_shell = by_shell cmd.command;
          cwd = cwd;
          env = env_of environ cmd.env_vars;
        }))
        (λ r. pure (ok r)) (λ e. pure (err (op_error e)))

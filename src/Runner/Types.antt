-- ===== src/Runner/Types.antt =====
-- hpc_relay/cmd_runners/_types.py: a command and its result.
use hpc_relay.Base.{List, Option, ℤ}
use hpc_relay.FilePath.{StrOrPath}
use hpc_relay.Text.{Text}

-- `command: str | list[str]`
pub data CommandLine : Type 0 where
  shell : Text → CommandLine
  argv : List Text → CommandLine

-- `dict[str, str]`, in insertion order
abbrev pub EnvVars : Type 0
EnvVars = List (Text × Text)

pub record Command : Type 0 where
  pub command : CommandLine
  pub working_directory : Option StrOrPath
  pub env_vars : Option EnvVars

pub record CommandResult : Type 0 where
  pub stdout : Text
  pub stderr : Text
  pub return_code : ℤ

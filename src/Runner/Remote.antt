-- ===== src/Runner/Remote.antt =====
-- `_build_remote_command` of hpc_relay/cmd_runners/_generic.py, which _cineca.py has too and which
-- _simple.py writes out in `run`; and that of _jsc.py.
pub mod Read
use hpc_relay.Base.{List, [], ◌∷◌, ◌++◌, Option, none, some, ◌≡◌, refl}
use hpc_relay.FilePath.{StrOrPath, str, text_of}
use hpc_relay.Runner.Types.{CommandLine, shell, argv, EnvVars, Command}
use hpc_relay.Shell.Quote.{
  quote, quote_path, join_spaces, quote_all, join, split_login, quote_tilde, escape_apostrophes,
}
use hpc_relay.Text.{Text, codes}

-- f"cd {quote_path(cmd.working_directory)} &&"
unfoldable pub cd_parts : Option StrOrPath → List Text
cd_parts none = []
cd_parts (some d) = (codes "cd " ++ (quote_path (text_of d) ++ codes " &&")) ∷ []

-- f"export {k}={shlex.quote(v)};" for each variable
unfoldable pub export_parts : EnvVars → List Text
export_parts [] = []
export_parts ((k, v) ∷ vars) =
    (codes "export " ++ (k ++ (b'=' ∷ (quote v ++ b';' ∷ [])))) ∷ export_parts vars

unfoldable pub env_parts : Option EnvVars → List Text
unfolding export_parts
env_parts none = []
env_parts (some vars) = export_parts vars

unfoldable pub command_part : CommandLine → Text
command_part (shell s) = s
command_part (argv args) = join args

unfoldable pub build_remote_command : Command → Text
unfolding cd_parts env_parts command_part join_spaces
build_remote_command cmd =
    join_spaces
      (cd_parts cmd.working_directory ++ (env_parts cmd.env_vars ++ command_part cmd.command ∷ []))

-- _jsc.py: the variables travel in the job description, not in the line.
unfoldable pub build_unicore_command : Command → Text
unfolding cd_parts command_part join_spaces
build_unicore_command cmd =
    join_spaces (cd_parts cmd.working_directory ++ command_part cmd.command ∷ [])

-- ===== src/Runner/Tests.antt =====
-- The remote line of the repository's own test of `build_remote_command`.
use hpc_relay.Shell.Chars.{is_safe}
use hpc_relay.Shell.Quote.{join, quote, quote_all, quote_path, quote_tilde, split_login}
use hpc_relay.Base.{◌≡◌, refl, List, [], ◌∷◌, ◌++◌, Option, none, some, pos}
use hpc_relay.Exec.{returns}
use hpc_relay.Result.{ok}
use hpc_relay.FilePath.{StrOrPath, str, text_of}
use hpc_relay.Runner.Local.{run_local, Process}
use hpc_relay.Runner.Merged.{put, merge, lookup}
use hpc_relay.Runner.Remote.{build_remote_command}
use hpc_relay.Runner.Remote.Read.{cd_tokens, env_tokens, tokens-build_remote_command}
use hpc_relay.Runner.Types.{Command, argv, EnvVars}
use hpc_relay.Shell.Reader.{tokens}
use hpc_relay.Shell.RoundTrip.{words}
use hpc_relay.Text.{Text, codes}

abbrev echo_ab : List Text
echo_ab = codes "echo" ∷ codes "a b" ∷ []

abbrev home_xy : Option StrOrPath
home_xy = some (str (codes "~/x y"))

abbrev quoted_var : Option EnvVars
quoted_var = some ((codes "K", codes "it's") ∷ [])

abbrev echo_command : Command
echo_command = record { command = argv echo_ab; working_directory = home_xy; env_vars = quoted_var }

remote_line :
    build_remote_command echo_command ≡ codes "cd ~/'x y' && export K='it'\"'\"'s'; echo 'a b'"
unfolding build_remote_command quote_path text_of quote_tilde split_login quote is_safe join
    quote_all
remote_line = refl

tokens-build_remote_command_example :
    tokens (build_remote_command echo_command)
    ≡ some (cd_tokens home_xy ++ (env_tokens quoted_var ++ words echo_ab))
tokens-build_remote_command_example =
    tokens-build_remote_command echo_ab home_xy quoted_var (refl, tt)

-- A process whose standard output is the value of the variable PATH in its environment.
abbrev path_of_process : Process → Text
path_of_process p = elim p.env [
  | none ↦ []
  | some env ↦ elim (lookup (codes "PATH") env) [ none ↦ [] | some value ↦ value ]
]

abbrev environ : EnvVars
environ = (codes "HOME", codes "/h") ∷ (codes "PATH", codes "/bin") ∷ []

-- The process keeps the variables of its parent that the command does not set.
keeps_path :
    (run_local {S = Unit {0}} environ returns
      (λ p s.
        (returns (record { stdout = path_of_process p; stderr = []; return_code = pos 0 }), s))
      echo_command
      tt).0
    ≡ returns (ok (record { stdout = codes "/bin"; stderr = []; return_code = pos 0 }))
unfolding run_local merge put lookup
keeps_path = refl

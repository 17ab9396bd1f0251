-- ===== src/Logs.antt =====
-- hpc_relay/run.py: running a command, and the first and last lines of the logs of a job. `run_cmd` and
-- `json.loads` are parameters.
use hpc_relay.Base.{List, [], ◌∷◌, ◌++◌, Option, none, some, if◌then◌else◌}
use hpc_relay.Exec.{Outcome, raises, Exec, ◌>>=◌, unwrap}
use hpc_relay.FilePath.{StrOrPath}
use hpc_relay.Result.{value_error, no_log_line, assertion_error, Result}
use hpc_relay.Runner.Types.{CommandLine, shell, EnvVars, Command, CommandResult}
use hpc_relay.Shell.Quote.{quote_path}
use hpc_relay.Text.{Text, codes}
use hpc_relay.Text.Split.{split_lines, starts_with}

-- A JSON object of texts, some of them `null`.
abbrev pub Logs : Type 0
Logs = List (Text × Option Text)

abbrev pub header : Text
header = codes ">>>> "

-- `escape_awk`
abbrev escape_awk : Text
escape_awk =
    codes "awk -v max=\"$MAX_BYTES\" 'BEGIN{ORS=\"\"; used=0} "
    ++ (codes "{s=$0; gsub(/\\\\/,\"\\\\\\\\\",s); gsub(/\"/,\"\\\\\\\"\",s); "
        ++ (codes "gsub(/\\011/,\"\\\\t\",s); gsub(/\\015/,\"\\\\r\",s); "
            ++ (codes "if(NR>1)s=\"\\\\n\" s; remaining=max-used; if(remaining<=0)exit; "
                ++ (codes "if(length(s)>remaining){printf \"%s\", substr(s,1,remaining); exit} "
                    ++ codes "printf \"%s\", s; used+=length(s)}'"))))

-- `prelude` and `helpers`
abbrev helpers : Text
helpers =
    codes "MAX_LINES=100; MAX_BYTES=100000; "
    ++ (codes "json_escape() { "
        ++ (escape_awk
            ++ (codes "; }; "
                ++ (codes "json_head() { head -n \"$MAX_LINES\" \"$1\" | json_escape; }; "
                    ++ codes "json_tail() { tail -n \"$MAX_LINES\" \"$1\" | json_escape; }; "))))

-- f"{a}=$(json_head {q}); {b}=$(json_tail {q}); "
unfoldable pub extract : Text → Text → Text → Text
extract a b q =
    a
    ++ (codes "=$(json_head "
        ++ (q ++ (codes "); " ++ (b ++ (codes "=$(json_tail " ++ (q ++ codes "); "))))))

unfoldable pub log_script : Text → Option Text → Text
unfolding extract quote_path
log_script stdout_path none =
    helpers
    ++ (extract (codes "ho") (codes "to") (quote_path stdout_path)
        ++ (codes "printf '>>>> {\"head_out\":\"%s\",\"tail_out\":\"%s\","
            ++ (codes "\"head_err\":null,\"tail_err\":null}\\n'" ++ codes " \"$ho\" \"$to\"")))
log_script stdout_path (some stderr_path) =
    helpers
    ++ (extract (codes "ho") (codes "to") (quote_path stdout_path)
        ++ (extract (codes "he") (codes "te") (quote_path stderr_path)
            ++ (codes "printf '>>>> {\"head_out\":\"%s\",\"tail_out\":\"%s\","
                ++ (codes "\"head_err\":\"%s\",\"tail_err\":\"%s\"}\\n'"
                    ++ codes " \"$ho\" \"$to\" \"$he\" \"$te\""))))

-- line[len(header):]
unfoldable pub drop_prefix : Text → Text → Text
drop_prefix [] s = s
drop_prefix (c ∷ prefix) [] = []
drop_prefix (c ∷ prefix) (d ∷ s) = drop_prefix prefix s

-- The first line with the header, without it.
unfoldable pub find_line : List Text → Option Text
unfolding starts_with drop_prefix
find_line [] = none
find_line (line ∷ lines) =
    if starts_with line header then some (drop_prefix header line) else find_line lines

-- Behind the run: an assertion that there is output, and the search for the line.
unfoldable pub read_logs : (Text → Outcome Logs) → Text → Outcome Logs
unfolding find_line
read_logs loads [] = raises assertion_error
read_logs loads (c ∷ out) = elim (find_line (split_lines (c ∷ out))) [
  | none ↦ raises (value_error (no_log_line (c ∷ out)))
  | some line ↦ loads line
]

module _ {S : Type 0} (run_cmd : Command → Exec S (Result CommandResult)) where
  -- `_run_async`, the body of the task `run`
  unfoldable pub run : CommandLine → Option StrOrPath → Option EnvVars → Exec S CommandResult
  unfolding unwrap
  run command working_directory env_vars = do
    result ←
        run_cmd
          (record { command = command; working_directory = working_directory; env_vars = env_vars })
    unwrap result

  unfoldable pub get_head_tail_logs : (Text → Outcome Logs) → Text → Option Text → Exec S Logs
  unfolding run log_script read_logs
  get_head_tail_logs loads stdout_path stderr_path = do
    res ← run (shell (log_script stdout_path stderr_path)) none none
    λ s. (read_logs loads res.stdout, s)

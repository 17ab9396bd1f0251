-- ===== src/Unicore.antt =====
-- hpc_relay/cmd_runners/_jsc.py: a command as a job of the UNICORE gateway. pyunicore and the file
-- system are a parameter, by all the calls so far.
pub mod Drain
pub mod Sites
pub mod Kept
pub mod Deleted
pub mod Ends
pub mod Runner
mod Tests
use hpc_relay.Base.{
  ℕ, zero, suc, ◌-◌, Bool, true, false, ◌||◌, List, [], ◌∷◌, ◌++◌, Option, none, some, ℤ, pos,
  if◌then◌else◌, ltb, length, is_zero, not,
}
use hpc_relay.Exec.{Outcome, returns, raises, Exec, pure, raise, ◌>>=◌, ◌>>◌, catch, and_then}
use hpc_relay.FilePath.{StrOrPath, str, path, FilePath}
use hpc_relay.Result.{
  Exc, runtime_error, key_error, no_properties, not_a_file, job_failed, op_error, Result, ok, err,
}
use hpc_relay.Runner.Context.{JscHpc, jupiter, jureca, juwels, JscUnicoreContext}
use hpc_relay.Runner.Remote.{build_unicore_command}
use hpc_relay.Runner.Types.{Command, CommandResult, EnvVars}
use hpc_relay.Text.{Text, codes, same}
use hpc_relay.Text.Chars.{is_space}
use hpc_relay.Text.Layout.{drop}
use hpc_relay.Text.Number.{int_of}
use hpc_relay.Text.Split.{strip}

-- The job description.
pub record JobDesc : Type 0 where
  pub executable : Text
  pub arguments : List Text
  pub environment : EnvVars
  pub imported : Option Text
  pub project : Option Text

-- A client: its token and the address of its site.
pub record Client : Type 0 where
  pub token : Text
  pub site_url : Text

pub data Call : Type 0 where
  read_file : FilePath → Call
  new_job : Client → JobDesc → Call
  job_id properties working_dir resource_url delete : Call
  stat read : Text → Call
  sleep : Call

-- The value under the key `exitCode`; `no_number` is one that `int` refuses by its type.
pub data ExitCode : Type 0 where
  number : ℤ → ExitCode
  text : Text → ExitCode
  no_number : ExitCode

-- `job.properties`, where it is a `dict`.
pub record Properties : Type 0 where
  pub status : Option Text
  pub exit_code : ExitCode

-- What each call comes to, by the calls so far, the last of which it is.
pub record Site : Type 0 where
  pub props : List Call → Outcome (Option Properties)
  pub flag : List Call → Outcome Bool
  pub content : List Call → Outcome Text

abbrev pub asks : {A : Type 0} → (List Call → Outcome A) → Call → Exec (List Call) A
asks answer call log = (answer (log ++ call ∷ []), log ++ call ∷ [])

-- `_TERMINAL_STATUSES`
unfoldable pub is_terminal : Text → Bool
unfolding same
is_terminal s = same s (codes "SUCCESSFUL") || (same s (codes "FAILED") || same s (codes "DONE"))

-- `_JSC_SITES` at `_VALID_HPCS`: each name of the `Literal` has an entry.
unfoldable pub site_url_of : JscHpc → Text
site_url_of jupiter = codes "https://unicore.fz-juelich.de/JUPITER/rest/core"
site_url_of jureca = codes "https://unicore.fz-juelich.de/JURECA/rest/core"
site_url_of juwels = codes "https://unicore.fz-juelich.de/JUWELS/rest/core"

-- What has been read of the standard output: `stdout_offset` and `stdout_parts`.
pub record Drained : Type 0 where
  pub offset : ℕ
  pub parts : List Text

abbrev pub undrained : Drained
undrained = record { offset = 0; parts = [] }

-- "".join(parts)
unfoldable pub joined : List Text → Text
joined [] = []
joined (t ∷ ts) = t ++ joined ts

-- The body of `_drain_stdout`, once the content is read.
unfoldable pub take_new : Drained → Text → Drained
unfolding drop
take_new d content =
    if ltb d.offset (length content)
    then record { offset = length content; parts = d.parts ++ drop d.offset content ∷ [] }
    else d

-- What the loop is done with, or `none` where it waits on.
abbrev pub Waiting : Type 0 → Type 0
Waiting A = Option A

-- try: m  finally: with suppress(Exception): cleanup
abbrev pub always :
    {A : Type 0}
    → Exec (List Call) Bool
    → Outcome (Waiting A) × List Call
    → Outcome (Waiting A) × List Call
always cleanup (returns none, log) = (returns none, log)
always cleanup (returns (some a), log) = (returns (some a), (cleanup log).1)
always cleanup (raises e, log) = (raises e, (cleanup log).1)

-- The code that int(raw) gives; otherwise one by the status.
unfoldable pub code_by : ExitCode → Text → ℤ
unfolding int_of same
code_by (number n) status = n
code_by (text s) status = elim (int_of s) [
  | some n ↦ n
  | none ↦ if same status (codes "SUCCESSFUL") || same status (codes "DONE") then pos 0 else pos 1
]
code_by no_number status =
    if same status (codes "SUCCESSFUL") || same status (codes "DONE") then pos 0 else pos 1

abbrev pub status_of : Option Properties → Exec (List Call) Text
status_of none = raise (runtime_error no_properties)
status_of (some p) = elim p.status [ none ↦ raise key_error | some s ↦ pure s ]

abbrev pub code_in : Option Properties → Text → ℤ
code_in none status = code_by no_number status
code_in (some p) status = code_by p.exit_code status

-- `decode` is bytes.decode("utf-8", errors="replace").
module _ (site : Site) (decode : Text → Text) where
  -- `_job_status`
  unfoldable pub job_status : Exec (List Call) Text
  job_status = do props ← asks site.props properties; status_of props

  -- `_job_exit_code`
  unfoldable pub job_exit_code : Text → Exec (List Call) ℤ
  unfolding code_by
  job_exit_code status = do props ← asks site.props properties; pure (code_in props status)

  -- `_read_remote_text`
  unfoldable pub read_remote_text : Text → Exec (List Call) Text
  read_remote_text name = do
    is_file ← asks site.flag (stat name)
    if is_file
        then (do raw ← asks site.content (read name); pure (decode raw))
        else raise (runtime_error not_a_file)

  -- `_drain_stdout`
  unfoldable pub drain_stdout : Drained → Exec (List Call) Drained
  unfolding take_new
  drain_stdout d =
      catch (read_remote_text (codes "/stdout")) (λ content. pure (take_new d content))
        (λ _. pure d)

  -- One round of the loop: the status, again for the log, the output, and the pause.
  unfoldable pub poll_round : Drained → Exec (List Call) Drained
  poll_round d = do job_status; d' ← drain_stdout d; asks site.flag sleep; pure d'

  -- What follows the loop.
  unfoldable pub finish : Drained → Exec (List Call) CommandResult
  unfolding joined
  finish d = do
    status ← job_status
    d' ← drain_stdout d
    stderr_text ← catch (read_remote_text (codes "/stderr")) pure (λ _. pure [])
    code ← job_exit_code status
    pure (record { stdout = joined d'.parts; stderr = stderr_text; return_code = code })

  abbrev pub wrap : Exec (List Call) CommandResult → Exec (List Call) (Waiting CommandResult)
  wrap m = do r ← m; pure (some r)

  -- The loop has no bound of its own: `none` means that the rounds are over.
  unfoldable pub watch : ℕ → Drained → Exec (List Call) (Waiting CommandResult)
  unfolding is_terminal
  watch zero d = pure none
  watch (suc rounds) d = do
    status ← job_status
    elim (is_terminal status) [ true ↦ wrap (finish d) | false ↦ poll_round d >>= watch rounds ]

  -- The body of the `try` of `_submit_and_wait`.
  unfoldable pub attend : ℕ → Exec (List Call) (Waiting CommandResult)
  attend rounds = do
    asks site.content job_id
    job_status
    asks site.content working_dir
    asks site.content resource_url
    asks site.content working_dir
    watch rounds undrained

  -- `_submit_and_wait`
  unfoldable pub submit_and_wait : ℕ → Client → JobDesc → Exec (List Call) (Waiting CommandResult)
  submit_and_wait rounds client job_desc = do
    asks site.flag (new_job client job_desc)
    λ log. always (asks site.flag delete) (attend rounds log)

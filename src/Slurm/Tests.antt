-- ===== src/Slurm/Tests.antt =====
-- Runs of the functions of slurm.py, on an HPC that gives one answer to every command and counts them.
use hpc_relay.Base.{
  ℕ, zero, suc, ◌≤◌, ◌<◌, ◌≡◌, ◌≢◌, refl, ap, ◌↔◌, ◌⊎◌, inr, true, List, [], ◌∷◌, none, some, pos,
  is_zero, arith,
}
use hpc_relay.Exec.{returns, Exec}
use hpc_relay.FilePath.{FilePath, str, to_path, join, path_of, text_of}
use hpc_relay.Result.{Reason, op_error, connection_closed, Result, ok, err}
use hpc_relay.Runner.Context.{CmdContext, simple_ssh}
use hpc_relay.Runner.Types.{argv, Command, CommandResult}
use hpc_relay.Shell.Chars.{is_safe}
use hpc_relay.Shell.Quote.{join_spaces, quote}
use hpc_relay.Shell.Reader.{tokens}
use hpc_relay.Shell.Line.{words_of}
use hpc_relay.Slurm.Await.{
  await_completion, absorb, after_poll, all_done, await_loop, find_info, in_order, is_pending,
  put_info,
}
use hpc_relay.Slurm.Await.Pending.{has_terminal}
use hpc_relay.Slurm.Await.Ends.{MakesProgress, await_completion_ends}
use hpc_relay.Slurm.Await.Sound.{Final, await_completion-Final}
use hpc_relay.Slurm.JobId.{parse_job_id, is_job_id}
use hpc_relay.Slurm.JobId.Shape.{IsLast, IsJobId, parse_job_id_iff}
use hpc_relay.Slurm.Sacct.{
  sacct_command, get_slurm_job_states, answer, collect, find, mem, read_row, read_rows, read_states,
  report,
}
use hpc_relay.Slurm.Sacct.Rows.{AnswersAll, get_slurm_job_states_sound}
use hpc_relay.Slurm.Submit.{
  payload, stdout_path, sbatch_command, cmd_parts, submit_slurm, invalid, check_paths,
  is_absolute_or_remote_home_path, read_submission, resolve_account, resolve_path, stderr_path,
}
use hpc_relay.Slurm.Submit.Branches.{IsRefused, IsSent, submit_slurm_cases}
use hpc_relay.Slurm.Submit.Line.{IsSafe, OptionsSafe, job_words, payload_word, tokens-cmd_parts}
use hpc_relay.Slurm.Submit.Success.{IsLastWord, ComesFrom, submit_slurm-ComesFrom}
use hpc_relay.Slurm.Types.{
  SlurmJobId, SlurmJob, SlurmJobInfo, SlurmSubmissionResult, completed, is_terminal_state, state_of,
}
use hpc_relay.Text.{Text, codes, same}
use hpc_relay.Text.Chars.{is_space, is_break, is_decimal}
use hpc_relay.Text.Split.{split_blank, strip, split_lines, join_with, partition, split_where}

abbrev printed : Text → CommandResult
printed out = record { stdout = out; stderr = []; return_code = pos 0 }

abbrev hpc_with : Text → Command → Exec ℕ (Result CommandResult)
hpc_with out cmd n = (returns (ok (printed out)), suc n)

abbrev sleep_counted : ℕ → Exec ℕ (Unit {0})
sleep_counted secs n = (returns tt, n)

abbrev job_42 : SlurmJobId
job_42 = codes "42"

abbrev ids_42 : List SlurmJobId
ids_42 = job_42 ∷ []

abbrev sbatch_says : Text
sbatch_says = codes "Submitted batch job 42\n"

abbrev sacct_says : Text
sacct_says = codes "42|COMPLETED\n"

abbrev info_42 : SlurmJobInfo
info_42 = record { job_id = job_42; state = completed }

parse_job_id_iff_example : (parse_job_id (printed sbatch_says) ≡ some job_42) ↔ (
    (is_zero (pos 0) ≡ true)
    × IsLast job_42 (split_blank (strip is_space sbatch_says))
    × IsJobId job_42)
parse_job_id_iff_example = parse_job_id_iff (printed sbatch_says) job_42

parsed_42 : parse_job_id (printed sbatch_says) ≡ some job_42
unfolding parse_job_id split_blank strip is_job_id is_decimal
parsed_42 = refl

sacct_run : get_slurm_job_states (hpc_with sacct_says) ids_42 0 ≡ (returns (ok (info_42 ∷ [])), 1)
unfolding get_slurm_job_states read_states read_rows split_lines read_row partition same split_blank
    state_of find
sacct_run = refl

get_slurm_job_states_sound_example :
    ((ids_42 ≡ []) × (info_42 ∷ [] ≡ []) × (◌≡◌ {A = ℕ} 1 0))
    ⊎ ((res : CommandResult) × (hpc_with sacct_says (sacct_command ids_42) 0
          ≡ (returns (ok res), 1))
        × AnswersAll ids_42 (split_lines res.stdout) ids_42 (info_42 ∷ []))
get_slurm_job_states_sound_example =
    get_slurm_job_states_sound (hpc_with sacct_says) ids_42 0 1 (info_42 ∷ []) sacct_run

await_run :
    await_completion (hpc_with sacct_says) sleep_counted 5 3 ids_42 0
    ≡ (returns (some (ok (info_42 ∷ []))), 1)
unfolding await_completion is_pending get_slurm_job_states read_states read_rows split_lines
    read_row partition same split_blank state_of find absorb is_terminal_state put_info all_done
    in_order after_poll await_loop find_info answer collect mem report sacct_command is_break
    is_space join_with split_where
await_run = refl

await_completion-Final_example : Final ids_42 (info_42 ∷ [])
await_completion-Final_example =
    await_completion-Final (hpc_with sacct_says) sleep_counted 5 3 ids_42 0 1 (info_42 ∷ [])
      await_run

-- An HPC whose connection breaks after some commands, and shows a running job until then.
abbrev breaking : Command → Exec ℕ (Result CommandResult)
breaking cmd zero = (returns (err (op_error (connection_closed (printed [])))), 0)
breaking cmd (suc n) = (returns (ok (printed (codes "42|RUNNING\n"))), n)

breaking-MakesProgress : MakesProgress breaking sleep_counted 5 (λ n. n)
unfolding get_slurm_job_states answer
breaking-MakesProgress = record { polls = polls; sleeps = λ s s' h. ground arith }
  where
    polls :
        (id : SlurmJobId) (ids : List SlurmJobId) (s s' : ℕ) (infos : List SlurmJobInfo)
        → get_slurm_job_states breaking (id ∷ ids) s ≡ (returns (ok infos), s')
        → ((has_terminal infos ≡ true) × (s' ≤ s)) ⊎ (s' < s)
    polls id ids zero s' infos h = cc
    polls id ids (suc n) s' infos h = inr (let e = ap (λ o. o.1) h in ground arith)

await_completion_ends_example :
    (await_completion breaking sleep_counted 5 10 ids_42 3).0 ≢ returns none
await_completion_ends_example =
    await_completion_ends breaking sleep_counted 5 (λ n. n) breaking-MakesProgress ids_42 3 10
      (ground arith)

abbrev run_job : SlurmJob
run_job = record {
  job_name = codes "my run";
  stdout = none;
  stderr = none;
  script_path = none;
  command = some (argv (codes "echo" ∷ codes "a b" ∷ []));
  working_directory = some (str (codes "/scratch/run 1"));
  submission_directory = none;
  time_limit = some (codes "00:10:00");
  slurm_options = some ((codes "nodes", codes "2") ∷ []);
  account = none;
}

abbrev on_host : CmdContext
on_host = simple_ssh (record { host = codes "hpc"; account = none })

abbrev run_out : FilePath
run_out = record {
  root = codes "/";
  parts = codes "scratch" ∷ codes "run 1" ∷ codes "slurm_job_my run_%j.out" ∷ [];
}

abbrev out_42 : FilePath
out_42 = record {
  root = codes "/";
  parts = codes "scratch" ∷ codes "run 1" ∷ codes "slurm_job_my run_42.out" ∷ [];
}

abbrev run_wrap : Text
run_wrap = codes "--wrap='echo '\"'\"'a b'\"'\"''"

run_payload : payload none (some (codes "echo 'a b'")) ≡ some run_wrap
unfolding payload quote is_safe
run_payload = refl

time-IsSafe : IsSafe run_job.time_limit
unfolding is_safe
time-IsSafe = refl

options-OptionsSafe : OptionsSafe run_job.slurm_options
unfolding is_safe
options-OptionsSafe = (refl, refl, tt)

tokens-cmd_parts_example :
    tokens (join_spaces (cmd_parts run_job on_host run_out run_wrap))
    ≡ some (
        words_of
          (job_words run_job on_host run_out (payload_word none (some (codes "echo 'a b'")))))
unfolding resolve_account
tokens-cmd_parts_example =
    tokens-cmd_parts run_job on_host run_out none (some (codes "echo 'a b'")) run_wrap run_payload
      time-IsSafe tt options-OptionsSafe

submit_slurm_cases_example :
    ((r : Reason) × IsRefused run_job r
      × (submit_slurm (hpc_with sbatch_says) run_job on_host 0 ≡ (returns (invalid r), 0)))
    ⊎ IsSent (hpc_with sbatch_says) run_job on_host 0
unfolding submit_slurm
submit_slurm_cases_example = submit_slurm_cases (hpc_with sbatch_says) run_job on_host 0

abbrev submission_42 : SlurmSubmissionResult
submission_42 = record { job_id = job_42; stdout = out_42; stderr = out_42 }

submit_run : submit_slurm (hpc_with sbatch_says) run_job on_host 0 ≡ (returns (ok submission_42), 1)
unfolding submit_slurm check_paths is_absolute_or_remote_home_path to_path text_of stdout_path
    payload read_submission parse_job_id split_blank strip is_job_id is_decimal resolve_path join
    stderr_path path_of
submit_run = refl

submit_slurm-ComesFrom_example :
    (out : FilePath) × (last : Text) × (result : CommandResult) × (stdout_path run_job ≡ some out)
    × IsLastWord run_job last
    × (hpc_with sbatch_says (sbatch_command run_job on_host out last) 0 ≡ (returns (ok result), 1))
    × ComesFrom run_job out result submission_42
submit_slurm-ComesFrom_example =
    submit_slurm-ComesFrom (hpc_with sbatch_says) run_job on_host 0 1 submission_42 submit_run

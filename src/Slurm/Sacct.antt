-- ===== src/Slurm/Sacct.antt =====
-- `get_slurm_job_states` of hpc_relay/slurm.py. `run_cmd` (hpc_relay/cmd_runners/_exec_cmd.py, with
-- its context) is a parameter: what it does is up to the HPC.
pub mod Rows
pub mod LastRow
use hpc_relay.Base.{
  ℕ, Bool, true, false, not, List, [], ◌∷◌, Option, none, some, ◌==◌, if◌then◌else◌, any, keep_if,
}
use hpc_relay.Exec.{Outcome, returns, raises, Exec, pure, ◌>>=◌}
use hpc_relay.Result.{
  Exc, value_error, runtime_error, lookup_error, index_error, key_error, sacct_failed,
  unrecognised_state, no_record, op_error, Result, ok, err,
}
use hpc_relay.Runner.Types.{Command, CommandResult, argv}
use hpc_relay.Slurm.Types.{SlurmJobId, SlurmJobState, SlurmJobInfo, state_of}
use hpc_relay.Text.{Text, codes, same}
use hpc_relay.Text.Split.{split_blank, split_lines, partition, join_with}

-- `states: dict[str, SlurmJobState]`; a newer entry hides an older one.
abbrev pub States : Type 0
States = List (SlurmJobId × SlurmJobState)

unfoldable pub find : SlurmJobId → States → Option SlurmJobState
find id [] = none
find id ((j, s) ∷ states) = if same id j then some s else find id states

unfoldable pub mem : SlurmJobId → List SlurmJobId → Bool
mem id ids = any (same id) ids

-- What one line of the output comes to.
pub data Row : Type 0 where
  skip : Row
  row : SlurmJobId → SlurmJobState → Row
  unknown : SlurmJobId → Text → Row
  blank_state : Row

-- raw_state.split(maxsplit=1)[0]: an `IndexError` on blanks alone
token_row : SlurmJobId → Text → List Text → Row
token_row id raw [] = blank_state
token_row id raw (token ∷ _) = elim (state_of token) [ none ↦ unknown id raw | some s ↦ row id s ]

state_row : SlurmJobId → Text → Row
unfolding token_row
state_row id [] = unknown id []
state_row id (c ∷ raw) = token_row id (c ∷ raw) (split_blank (c ∷ raw))

-- An empty line has no separator either.
unfoldable pub read_row : List SlurmJobId → Text → Row
unfolding state_row mem
read_row expected line = elim (partition b'|' line) [
  | none ↦ skip
  | some (id, raw) ↦ if mem id expected then state_row id raw else skip
]

-- The loop over the lines.
unfoldable pub read_rows : List SlurmJobId → States → List Text → Outcome (Result States)
read_rows expected states [] = returns (ok states)
read_rows expected states (line ∷ lines) = elim (read_row expected line) [
  | skip ↦ read_rows expected states lines
  | row id s ↦ read_rows expected ((id, s) ∷ states) lines
  | unknown id raw ↦ returns (err (op_error (value_error (unrecognised_state id raw))))
  | blank_state ↦ raises index_error
]

abbrev pub is_missing : States → SlurmJobId → Bool
is_missing states id = elim (find id states) [ none ↦ true | some s ↦ false ]

-- [SlurmJobInfo(jid, states[jid]) for jid in slurm_job_ids]
unfoldable pub collect : States → List SlurmJobId → Outcome (List SlurmJobInfo)
collect states [] = returns []
collect states (id ∷ ids) = elim (find id states) [
  | none ↦ raises key_error
  | some s ↦ elim (collect states ids) [
    | raises e ↦ raises e
    | returns infos ↦ returns (record { job_id = id; state = s } ∷ infos)
  ]
]

-- Behind the loop: the ids without a record, and the list.
unfoldable pub report :
    List SlurmJobId → States → List SlurmJobId → Outcome (Result (List SlurmJobInfo))
unfolding collect
report ids states (m ∷ missing) = returns (err (op_error (lookup_error (no_record (m ∷ missing)))))
report ids states [] = elim (collect states ids) [
  | raises e ↦ raises e
  | returns infos ↦ returns (ok infos)
]

unfoldable pub read_states : List SlurmJobId → Text → Outcome (Result (List SlurmJobInfo))
unfolding report
read_states ids out = elim (read_rows ids [] (split_lines out)) [
  | raises e ↦ raises e
  | returns (err e) ↦ returns (err e)
  | returns (ok states) ↦ report ids states (keep_if (is_missing states) ids)
]

unfoldable pub sacct_command : List SlurmJobId → Command
sacct_command ids = record {
  command = argv (
      codes "sacct"
      ∷ codes "-j"
      ∷ join_with (codes ",") ids
      ∷ codes "-o"
      ∷ codes "JobID,State"
      ∷ codes "-X"
      ∷ codes "-n"
      ∷ codes "-P"
      ∷ []);
  working_directory = none;
  env_vars = none;
}

module _ {S : Type 0} (run_cmd : Command → Exec S (Result CommandResult)) where
  -- The exit code of sacct is not looked at.
  unfoldable pub answer :
      List SlurmJobId → Result CommandResult → Exec S (Result (List SlurmJobInfo))
  answer ids (err e) s = (returns (err (op_error (runtime_error (sacct_failed e.err)))), s)
  answer ids (ok res) s = (read_states ids res.stdout, s)

  unfoldable pub get_slurm_job_states : List SlurmJobId → Exec S (Result (List SlurmJobInfo))
  unfolding answer sacct_command
  get_slurm_job_states [] = pure (ok [])
  get_slurm_job_states (id ∷ ids) = do
    res ← run_cmd (sacct_command (id ∷ ids))
    answer (id ∷ ids) res

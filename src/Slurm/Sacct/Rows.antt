-- ===== src/Slurm/Sacct/Rows.antt =====
-- What the states that sacct reports are taken from.
use hpc_relay.Base.{◌≡◌, refl, ◌⊎◌, inl, inr, List, [], ◌∷◌, some, arith, keep_if, Option-cases}
use hpc_relay.Exec.{Outcome, returns, raises, Exec}
use hpc_relay.Result.{Result, ok, err}
use hpc_relay.Runner.Types.{Command, CommandResult}
use hpc_relay.Slurm.Sacct.{
  States, find, read_rows, is_missing, collect, report, read_states, sacct_command,
  get_slurm_job_states,
}
use hpc_relay.Slurm.Types.{SlurmJobId, SlurmJobState, SlurmJobInfo}
use hpc_relay.Text.{Text}
use hpc_relay.Text.Split.{split_lines}
use hpc_relay.Slurm.Sacct.LastRow.{LastRow, find-read_rows}

-- Every info is that of the id at its place, with the state of the id's last row.
pub record Answers (expected : List SlurmJobId) (lines : List Text) (id : SlurmJobId)
    (info : SlurmJobInfo) : Type 0 where
  pub job_id : info.job_id ≡ id
  pub last_row : LastRow expected lines id info.state

pub data AnswersAll (expected : List SlurmJobId) (lines : List Text)
    : List SlurmJobId → List SlurmJobInfo → Type 0 where
  no_more : AnswersAll expected lines [] []
  answer_for :
      {id : SlurmJobId} {info : SlurmJobInfo} {ids : List SlurmJobId} {infos : List SlurmJobInfo}
      → Answers expected lines id info
      → AnswersAll expected lines ids infos
      → AnswersAll expected lines (id ∷ ids) (info ∷ infos)

module _ (expected : List SlurmJobId) (lines : List Text) (states : States)
    (r : read_rows expected [] lines ≡ returns (ok states)) where
  find-Answers :
      (id : SlurmJobId) (s : SlurmJobState)
      → find id states ≡ some s
      → Answers expected lines id (record { job_id = id; state = s })
  find-Answers id s f = elim (find-read_rows expected id s lines [] states r f) [
    | inl l ↦ record { job_id = refl; last_row = l }
    | inr (_, g) ↦ absurd (unfold find in cc g)
  ]

  -- No `KeyError`: an id without a state is missing.
  collect-AnswersAll :
      (ids : List SlurmJobId)
      → keep_if (is_missing states) ids ≡ []
      → (infos : List SlurmJobInfo) × (collect states ids ≡ returns infos)
        × AnswersAll expected lines ids infos
  unfolding collect
  collect-AnswersAll [] h = ([], refl, no_more)
  collect-AnswersAll (id ∷ ids) h = elim (Option-cases (find id states)) [
    | inl n ↦ absurd (ground arith)
    | inr (s, f) ↦
        let (infos, c, answers) = collect-AnswersAll ids (ground arith) in
        (
          record { job_id = id; state = s } ∷ infos,
          ground arith,
          answer_for (find-Answers id s f) answers,
        )
  ]

  report-AnswersAll :
      (ids missing : List SlurmJobId) (infos : List SlurmJobInfo)
      → keep_if (is_missing states) ids ≡ missing
      → report ids states missing ≡ returns (ok infos)
      → AnswersAll expected lines ids infos
  unfolding report
  report-AnswersAll ids (m ∷ missing) infos e h = absurd (ground arith)
  report-AnswersAll ids [] infos e h =
      let (infos', c, answers) = collect-AnswersAll ids e in
      let p : infos' ≡ infos = ground arith in rw p at answers

pub read_states-AnswersAll :
    (ids : List SlurmJobId) (out : Text) (infos : List SlurmJobInfo)
    → read_states ids out ≡ returns (ok infos)
    → AnswersAll ids (split_lines out) ids infos
read_states-AnswersAll ids out infos = go (read_rows ids [] (split_lines out)) refl
  where
    go :
        (o : Outcome (Result States))
        → read_rows ids [] (split_lines out) ≡ o
        → read_states ids out ≡ returns (ok infos)
        → AnswersAll ids (split_lines out) ids infos
    go (raises x) e h = absurd (unfold read_states in ground arith)
    go (returns (err x)) e h = absurd (unfold read_states in ground arith)
    go (returns (ok states)) e h =
        report-AnswersAll ids (split_lines out) states e ids _ infos refl
          (unfold read_states in rw (e, read_states) at h)

module _ {S : Type 0} (run_cmd : Command → Exec S (Result CommandResult)) where
  -- Where a call returns a list of states, either nothing was asked, or sacct was run once, and the
  -- list has one entry for each id asked for, in that order, with the state of the last row that
  -- sacct printed for the id. Any other lines of the output have no influence.
  pub get_slurm_job_states_sound :
      (ids : List SlurmJobId) (s s' : S) (infos : List SlurmJobInfo)
      → get_slurm_job_states run_cmd ids s ≡ (returns (ok infos), s')
      → ((ids ≡ []) × (infos ≡ []) × (s' ≡ s))
        ⊎ ((res : CommandResult) × (run_cmd (sacct_command ids) s ≡ (returns (ok res), s'))
            × AnswersAll ids (split_lines res.stdout) ids infos)
  unfolding get_slurm_job_states
  get_slurm_job_states_sound [] s s' infos h = inl (ground arith, ground arith, ground arith)
  get_slurm_job_states_sound (id ∷ ids) s s' infos h =
      go (run_cmd (sacct_command (id ∷ ids)) s) refl
    where
      go :
          (o : Outcome (Result CommandResult) × S)
          → run_cmd (sacct_command (id ∷ ids)) s ≡ o
          → ((id ∷ ids ≡ []) × (infos ≡ []) × (s' ≡ s))
            ⊎ ((res : CommandResult) × (run_cmd (sacct_command (id ∷ ids)) s
                  ≡ (returns (ok res), s'))
                × AnswersAll (id ∷ ids) (split_lines res.stdout) (id ∷ ids) infos)
      go (raises x, t) e = absurd (ground arith)
      go (returns (err x), t) e = absurd (ground arith)
      go (returns (ok res), t) e =
          inr (res, ground arith, read_states-AnswersAll (id ∷ ids) res.stdout infos (ground arith))

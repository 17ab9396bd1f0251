-- ===== src/Launch/Summary/Parsed.antt =====
-- What `_parse_launch_summary` gives, on every branch.
use hpc_relay.Base.{
  ◌≡◌, ◌≢◌, refl, sym, ◌∙◌, inl, inr, ◌&&◌, List, [], ◌∷◌, ◌++◌, Option, none, some, All, In,
  at_head, in_tail, arith, append_assoc, append-nil, Bool-cases,
}
use hpc_relay.Exec.{Outcome, returns, raises}
use hpc_relay.Result.{Exc}
use hpc_relay.Slurm.Types.{SlurmJobId}
use hpc_relay.Text.{Text, same, same_iff}
use hpc_relay.Text.Regex.{finditer}
use hpc_relay.Text.Regex.Complete.{Hit, match-Hit}
use hpc_relay.Text.Regex.Scan.{Occurs, occurs, scan-Occurs, scan-nil}
use hpc_relay.Text.Regex.Sound.{Splits, part}
use hpc_relay.Launch.Summary.{
  summary_line, run_id_of, dir_of, job_ids_of, Summary, summary_of, more_lines, read_lines,
  parse_launch_summary,
}

-- The ids of all lines, in their order.
unfoldable pub all_job_ids : List (List Text) → List SlurmJobId
all_job_ids [] = []
all_job_ids (line ∷ lines) = job_ids_of line ++ all_job_ids lines

-- The lines name this run and this directory.
abbrev pub Agree : Text → Text → List (List Text) → Type 0
Agree run_id work_dir lines =
    All (λ line. (run_id_of line ≡ run_id) × (dir_of line ≡ work_dir)) lines

-- How the reading of lines ends, of which some have given `run_id`, `work_dir` and `before`.
data LinesEnd (run_id work_dir : Text) (before : List SlurmJobId) (lines : List (List Text))
    : Outcome (Option Summary) → Type 0 where
  read :
      (ids : List SlurmJobId)
      → Agree run_id work_dir lines
      → ids ≡ before ++ all_job_ids lines
      → ids ≢ []
      → LinesEnd run_id work_dir before lines (returns (some (run_id, ids, work_dir)))
  no_ids :
      (e : Exc)
      → Agree run_id work_dir lines
      → before ++ all_job_ids lines ≡ []
      → LinesEnd run_id work_dir before lines (raises e)
  differ :
      (e : Exc) (line : List Text)
      → In line lines
      → ¬ ((run_id_of line ≡ run_id) × (dir_of line ≡ work_dir))
      → LinesEnd run_id work_dir before lines (raises e)

module _ (run_id work_dir : Text) where
  summary_of-LinesEnd :
      (ids before : List SlurmJobId)
      → ids ≡ before
      → LinesEnd run_id work_dir before [] (summary_of run_id work_dir ids)
  unfolding summary_of all_job_ids
  summary_of-LinesEnd [] before e = no_ids _ tt (append-nil before ∙ sym e)
  summary_of-LinesEnd (id ∷ ids) before e =
      read (id ∷ ids) tt (e ∙ sym (append-nil before)) (λ h. ground arith)

  -- A first line that agrees.
  LinesEnd-cons :
      (before : List SlurmJobId) (line : List Text) (lines : List (List Text))
      (o : Outcome (Option Summary))
      → run_id_of line ≡ run_id
      → dir_of line ≡ work_dir
      → LinesEnd run_id work_dir (before ++ job_ids_of line) lines o
      → LinesEnd run_id work_dir before (line ∷ lines) o
  unfolding all_job_ids
  LinesEnd-cons before line lines _ r d (read ids a e n) =
      read ids ((r, d), a) (e ∙ append_assoc before (job_ids_of line) (all_job_ids lines)) n
  LinesEnd-cons before line lines _ r d (no_ids e a h) =
      no_ids e ((r, d), a) (sym (append_assoc before (job_ids_of line) (all_job_ids lines)) ∙ h)
  LinesEnd-cons before line lines _ r d (differ e other i h) = differ e other (in_tail i) h

  more_lines-LinesEnd :
      (before : List SlurmJobId) (lines : List (List Text))
      → LinesEnd run_id work_dir before lines (more_lines run_id work_dir before lines)
  unfolding more_lines
  more_lines-LinesEnd before [] = summary_of-LinesEnd before before refl
  more_lines-LinesEnd before (line ∷ lines) =
      elim (Bool-cases (same (run_id_of line) run_id && same (dir_of line) work_dir)) [
        | inl y ↦ rw y (
            LinesEnd-cons before line lines _
              ((same_iff (run_id_of line) run_id).0 (ground (arith, y)))
              ((same_iff (dir_of line) work_dir).0 (ground (arith, y)))
              (more_lines-LinesEnd (before ++ job_ids_of line) lines))
        | inr n ↦ rw n (
            differ _ line (at_head refl) (λ h. ground (
              arith,
              n,
              (same_iff (run_id_of line) run_id).1 h.0,
              (same_iff (dir_of line) work_dir).1 h.1,
            )))
      ]

-- How the parsing of an output ends: without a summary, where no part of the output is a summary line;
-- with one, in which the lines agree, and all ids are given; or with an error, for lines that differ or
-- lines without ids.
pub data SummaryEnd (output : Text) (lines : List (List Text))
    : Outcome (Option Summary) → Type 0 where
  absent :
      ((line : List Text) → ¬ Occurs summary_line line output)
      → SummaryEnd output lines (returns none)
  found :
      (run_id : Text) (ids : List SlurmJobId) (work_dir : Text)
      → lines ≢ []
      → Agree run_id work_dir lines
      → ids ≡ all_job_ids lines
      → ids ≢ []
      → SummaryEnd output lines (returns (some (run_id, ids, work_dir)))
  without_ids : (e : Exc) → lines ≢ [] → all_job_ids lines ≡ [] → SummaryEnd output lines (raises e)
  inconsistent :
      (e : Exc) (first other : List Text)
      → In first lines
      → In other lines
      → ¬ ((run_id_of other ≡ run_id_of first) × (dir_of other ≡ dir_of first))
      → SummaryEnd output lines (raises e)

module _ (output : Text) where
  no-Hit : (r : Option (List Text × Text)) → r ≡ none → ¬ Hit r
  no-Hit none e h = elim h [ ]
  no-Hit (some r) e h = ground arith

  -- A line that occurs is found: it begins with a letter.
  starts_here :
      (line : List Text) (before s rest : Text)
      → finditer summary_line output ≡ []
      → output ≡ before ++ s
      → ¬ Splits summary_line line s rest
  unfolding finditer
  starts_here line before [] rest none_found e (part f q h) = ground (arith, f)
  starts_here line before (c ∷ s) rest none_found e h =
      no-Hit _ (scan-nil summary_line before c s (rw (← e) none_found)) (match-Hit summary_line h)

  nothing_found :
      finditer summary_line output ≡ [] → (line : List Text) → ¬ Occurs summary_line line output
  nothing_found none_found line (occurs before s rest e h) =
      starts_here line before s rest none_found e h

  read_lines-SummaryEnd :
      (lines : List (List Text))
      → lines ≡ finditer summary_line output
      → SummaryEnd output lines (read_lines lines)
  unfolding read_lines all_job_ids
  read_lines-SummaryEnd [] e = absent (nothing_found (sym e))
  read_lines-SummaryEnd (line ∷ lines) e =
      go _ (more_lines-LinesEnd (run_id_of line) (dir_of line) (job_ids_of line) lines)
    where
      go :
          (o : Outcome (Option Summary))
          → LinesEnd (run_id_of line) (dir_of line) (job_ids_of line) lines o
          → SummaryEnd output (line ∷ lines) o
      go _ (read ids a h n) =
          found (run_id_of line) ids (dir_of line) (λ q. ground arith) ((refl, refl), a) h n
      go _ (no_ids x a h) = without_ids x (λ q. ground arith) h
      go _ (differ x other i h) = inconsistent x line other (at_head refl) (in_tail i) h

  -- Each line that `_parse_launch_summary` reads occurs in the output as a match of its pattern. It gives
  -- none exactly for an output no part of which matches; otherwise it gives the run id and the directory
  -- that all lines name, with the ids of all of them in their order, at least one; or it raises, for lines
  -- that differ in one of the two, or for lines without ids.
  pub parse_launch_summary-SummaryEnd :
      ((line : List Text)
        → In line (finditer summary_line output)
        → Occurs summary_line line output)
      × SummaryEnd output (finditer summary_line output) (parse_launch_summary output)
  unfolding parse_launch_summary
  parse_launch_summary-SummaryEnd = (
    λ line h. scan-Occurs summary_line 0 output line h,
    read_lines-SummaryEnd (finditer summary_line output) refl,
  )

-- ===== src/Launch/Summary.antt =====
-- `_parse_launch_summary` of extra/launch_slurm.py.
pub mod Parsed
use hpc_relay.Base.{
  ℕ, zero, suc, Bool, true, false, not, ◌&&◌, List, [], ◌∷◌, ◌++◌, Option, none, some,
  if◌then◌else◌, keep_if, map, ◌==◌,
}
use hpc_relay.Exec.{Outcome, returns, raises}
use hpc_relay.Result.{value_error, inconsistent_lines, no_ids_in_summary}
use hpc_relay.Slurm.Types.{SlurmJobId}
use hpc_relay.Text.{Text, codes, same}
use hpc_relay.Text.Chars.{is_space}
use hpc_relay.Text.Regex.{Piece, lit, star, plus, lazy, finditer}
use hpc_relay.Text.Split.{split_where, strip}

-- \S, [^\]] and the dot of a pattern
abbrev pub is_filled : ℕ → Bool
is_filled c = not (is_space c)

abbrev pub is_inside : ℕ → Bool
is_inside c = not (c == b']')

abbrev pub is_on_line : ℕ → Bool
is_on_line c = not (c == b'\n')

-- `_SUMMARY_LINE_RE`
abbrev pub summary_line : List Piece
summary_line =
    lit (codes "run_id=")
    ∷ plus is_filled
    ∷ star is_space
    ∷ lit (codes "|")
    ∷ star is_space
    ∷ lit (codes "job_ids=[")
    ∷ star is_inside
    ∷ lit (codes "]")
    ∷ star is_space
    ∷ lit (codes "|")
    ∷ lazy is_on_line
    ∷ lit (codes "dir=")
    ∷ plus is_filled
    ∷ []

-- What a piece of a match is; the groups `run_id`, `job_ids` and `dir`.
unfoldable pub group : ℕ → List Text → Text
group n [] = []
group zero (t ∷ ts) = t
group (suc n) (t ∷ ts) = group n ts

abbrev pub run_id_of : List Text → Text
run_id_of = group 1

abbrev pub dir_of : List Text → Text
dir_of = group 12

is_filled_text : Text → Bool
is_filled_text [] = false
is_filled_text (c ∷ s) = true

-- The ids of a line: blanks round them are dropped, and so are empty ones.
unfoldable pub job_ids_of : List Text → List SlurmJobId
unfolding group split_where strip is_space is_filled_text
job_ids_of line =
    keep_if is_filled_text (map (strip is_space) (split_where (λ c. c == b',') (group 6 line)))

-- (run_id, job_ids, work_dir)
abbrev pub Summary : Type 0
Summary = Text × List SlurmJobId × Text

unfoldable pub summary_of : Text → Text → List SlurmJobId → Outcome (Option Summary)
summary_of run_id work_dir [] = raises (value_error (no_ids_in_summary run_id))
summary_of run_id work_dir (id ∷ ids) = returns (some (run_id, id ∷ ids, work_dir))

-- The lines behind the first, which gave the run id and the directory.
unfoldable pub more_lines :
    Text → Text → List SlurmJobId → List (List Text) → Outcome (Option Summary)
unfolding summary_of job_ids_of
more_lines run_id work_dir job_ids [] = summary_of run_id work_dir job_ids
more_lines run_id work_dir job_ids (line ∷ lines) =
    let rest = more_lines run_id work_dir (job_ids ++ job_ids_of line) lines in
    if same (run_id_of line) run_id && same (dir_of line) work_dir
    then rest
    else raises (value_error (inconsistent_lines run_id work_dir (run_id_of line) (dir_of line)))

unfoldable pub read_lines : List (List Text) → Outcome (Option Summary)
unfolding more_lines
read_lines [] = returns none
read_lines (line ∷ lines) = more_lines (run_id_of line) (dir_of line) (job_ids_of line) lines

unfoldable pub parse_launch_summary : Text → Outcome (Option Summary)
unfolding read_lines finditer
parse_launch_summary output = read_lines (finditer summary_line output)

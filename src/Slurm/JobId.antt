-- ===== src/Slurm/JobId.antt =====
-- `_parse_job_id` of hpc_relay/slurm.py.
pub mod Shape
use hpc_relay.Base.{
  ℕ, Bool, true, false, not, ◌&&◌, List, [], ◌∷◌, Option, none, some, ◌==◌, leb, if◌then◌else◌,
  is_zero, all,
}
use hpc_relay.Runner.Types.{CommandResult}
use hpc_relay.Slurm.Types.{SlurmJobId}
use hpc_relay.Text.{Text}
use hpc_relay.Text.Chars.{is_space, is_decimal}
use hpc_relay.Text.Split.{split_blank, strip}

-- The pattern behind the first digit: `\d*(?:_\d+)?` up to the end. No digit is `_`, so that the
-- greedy `\d*` never has to give a character back.
after_digits : Text → Bool
after_digits [] = true
after_digits (c ∷ []) = is_decimal c
after_digits (c ∷ d ∷ s) =
    let rest = after_digits (d ∷ s) in
    if is_decimal c then rest else c == b'_' && all is_decimal (d ∷ s)

-- re.fullmatch(r"[1-9]\d*(?:_\d+)?", candidate)
unfoldable pub is_job_id : Text → Bool
unfolding after_digits
is_job_id [] = false
is_job_id (c ∷ s) = (leb b'1' c && leb c b'9') && after_digits s

last : Text → List Text → Text
last t [] = t
last t (u ∷ ts) = last u ts

-- `tokens` of stdout, up to the result
pick_candidate : List Text → Option SlurmJobId
unfolding last
pick_candidate [] = none
pick_candidate (t ∷ ts) =
    let candidate = last t ts in if is_job_id candidate then some candidate else none

unfoldable pub parse_job_id : CommandResult → Option SlurmJobId
unfolding pick_candidate
parse_job_id result =
    if is_zero result.return_code
    then pick_candidate (split_blank (strip is_space result.stdout))
    else none

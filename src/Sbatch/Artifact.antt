-- ===== src/Sbatch/Artifact.antt =====
-- The artifacts of _sbatch.py: `_artifact_key_part`, `_format_output_section` and their texts.
pub mod Key
use hpc_relay.Base.{
  ℕ, ◌+◌, Bool, true, false, not, ◌&&◌, ◌||◌, List, [], ◌∷◌, ◌++◌, Option, none, some, ◌==◌, leb,
  if◌then◌else◌,
}
use hpc_relay.FilePath.{to_text}
use hpc_relay.Logs.{Logs}
use hpc_relay.Slurm.Types.{SlurmJobId, SlurmJob, SlurmSubmissionResult}
use hpc_relay.Text.{Text, codes, same}
use hpc_relay.Text.Split.{lower, strip}

-- [a-z0-9-]
unfoldable pub is_key_char : ℕ → Bool
is_key_char c = (leb b'a' c && leb c b'z') || (leb b'0' c && leb c b'9') || c == b'-'

-- re.sub(r"[^a-z0-9-]+", "-", s): one dash for each run; the flag says that a run is going on.
unfoldable pub replace_runs : Bool → Text → Text
replace_runs in_run [] = []
replace_runs in_run (c ∷ s) =
    let kept = replace_runs false s in
    let going_on = replace_runs true s in
    if is_key_char c then c ∷ kept else if in_run then going_on else b'-' ∷ going_on

unfoldable pub or_x : Text → Text
or_x [] = b'x' ∷ []
or_x (c ∷ s) = c ∷ s

unfoldable pub is_dash : ℕ → Bool
is_dash c = c == b'-'

unfoldable pub artifact_key_part : Text → Text
unfolding lower replace_runs or_x strip is_dash
artifact_key_part s = or_x (strip is_dash (replace_runs false (lower s)))

-- `artifact_key`
unfoldable pub artifact_key : Text → SlurmJobId → Text
unfolding artifact_key_part
artifact_key job_name job_id =
    codes "slurm-submission-" ++ (artifact_key_part job_name ++ (b'-' ∷ artifact_key_part job_id))

-- `artifact_description`
unfoldable pub artifact_description : SlurmJobId → Text → Text
artifact_description job_id hpc = codes "slurm job " ++ (job_id ++ (codes " on " ++ hpc))

item : Text → Text → Text
item name value = codes "- **" ++ (name ++ (codes ":** `" ++ (value ++ codes "`\n")))

-- `submission_md`
unfoldable pub submission_markdown : SlurmJob → Text → SlurmSubmissionResult → Text
unfolding item to_text
submission_markdown job hpc sub =
    codes "## SLURM submission\n\n"
    ++ (item (codes "Job ID") sub.job_id
        ++ (item (codes "HPC") hpc
            ++ (item (codes "Job name") job.job_name
                ++ (item (codes "stdout") (to_text sub.stdout)
                    ++ item (codes "stderr") (to_text sub.stderr)))))

-- output.get(name): a missing name and `null` are both none.
unfoldable pub get_log : Text → Logs → Option Text
get_log name [] = none
get_log name ((k, v) ∷ logs) = if same name k then v else get_log name logs

section_body : Option Text → Text
section_body none = codes "_(not available)_"
section_body (some []) = codes "_(empty)_"
section_body (some (c ∷ s)) = codes "````\n" ++ ((c ∷ s) ++ codes "\n````")

section_text : Text → Option Text → Text
section_text title body =
    codes "### " ++ (title ++ (codes "\n\n" ++ (section_body body ++ codes "\n\n")))

unfoldable pub format_output_section : Logs → Text
unfolding section_text section_body get_log
format_output_section output =
    codes "## SLURM job output\n\n"
    ++ (section_text (codes "stdout (head)") (get_log (codes "head_out") output)
        ++ (section_text (codes "stdout (tail)") (get_log (codes "tail_out") output)
            ++ (section_text (codes "stderr (head)") (get_log (codes "head_err") output)
                ++ section_text (codes "stderr (tail)") (get_log (codes "tail_err") output))))

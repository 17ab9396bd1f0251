-- ===== src/Sbatch/Artifact/Key.antt =====
-- The keys that `_artifact_key_part` makes are keys that Prefect accepts.
use hpc_relay.Base.{
  ℕ, ◌≡◌, ◌≢◌, refl, ◌∙◌, inl, inr, Bool, true, false, [], ◌∷◌, ◌++◌, all, all-append, Bool-cases,
  &&-eq_true, arith,
}
use hpc_relay.Sbatch.Artifact.{
  is_key_char, or_x, replace_runs, is_dash, artifact_key_part, artifact_key,
}
use hpc_relay.Slurm.Types.{SlurmJobId}
use hpc_relay.Text.{Text, codes}
use hpc_relay.Text.Split.{lower, or_drop, strip, strip_left, strip_right}

dash-all : (s : Text) → all is_key_char s ≡ true → all is_key_char (b'-' ∷ s) ≡ true
unfolding is_key_char
dash-all s h = h

all-replace_runs : (in_run : Bool) (s : Text) → all is_key_char (replace_runs in_run s) ≡ true
unfolding replace_runs
all-replace_runs in_run [] = refl
all-replace_runs in_run (c ∷ s) =
    let kept = all-replace_runs false s in
    let going_on = all-replace_runs true s in
    elim (Bool-cases (is_key_char c)) [
      | inl h ↦ rw (h, replace_runs) (ground (arith, h, kept))
      | inr h ↦ elim (Bool-cases in_run) [
        | inl r ↦ rw (h, r, replace_runs) going_on
        | inr r ↦ rw (h, r, replace_runs) (dash-all _ going_on)
      ]
    ]

all-strip_left : (p q : ℕ → Bool) (s : Text) → all q s ≡ true → all q (strip_left p s) ≡ true
unfolding strip_left
all-strip_left p q [] h = refl
all-strip_left p q (c ∷ s) h = let rest = all-strip_left p q s in ground arith

all-or_drop :
    (b : Bool) (q : ℕ → Bool) (c : ℕ) (s : Text)
    → q c ≡ true
    → all q s ≡ true
    → all q (or_drop b c s) ≡ true
unfolding or_drop
all-or_drop true q c [] h k = refl
all-or_drop true q c (d ∷ s) h k = ground (arith, h, k)
all-or_drop false q c s h k = ground (arith, h, k)

all-strip_right : (p q : ℕ → Bool) (s : Text) → all q s ≡ true → all q (strip_right p s) ≡ true
unfolding strip_right
all-strip_right p q [] h = refl
all-strip_right p q (c ∷ s) h =
    let (first, others) = &&-eq_true (q c) (all q s) h in
    all-or_drop (p c) q c (strip_right p s) first (all-strip_right p q s others)

-- What Prefect asks of a key: `^[a-z0-9-]+$`.
pub IsKey : Text → Type 0
IsKey s = (s ≢ []) × (all is_key_char s ≡ true)

or_x-IsKey : (s : Text) → all is_key_char s ≡ true → IsKey (or_x s)
unfolding IsKey or_x
or_x-IsKey [] h = (λ e. cc, unfold is_key_char in refl)
or_x-IsKey (c ∷ s) h = (λ e. cc, h)

artifact_key_part-IsKey : (s : Text) → IsKey (artifact_key_part s)
unfolding artifact_key_part strip
artifact_key_part-IsKey s = or_x-IsKey (strip is_dash (replace_runs false (lower s))) (
    all-strip_right is_dash is_key_char (strip_left is_dash (replace_runs false (lower s))) (
      all-strip_left is_dash is_key_char (replace_runs false (lower s))
        (all-replace_runs false (lower s))))

all-key :
    (a b : Text)
    → all is_key_char a ≡ true
    → all is_key_char b ≡ true
    → all is_key_char (codes "slurm-submission-" ++ (a ++ (b'-' ∷ b))) ≡ true
unfolding is_key_char
all-key a b h k = all-append is_key_char a (b'-' ∷ b) ∙ ground (arith, h, k)

-- Whatever the name of the job and its id, the key of its artifact is one that Prefect accepts:
-- nothing but lower-case letters, digits and dashes.
pub artifact_key-IsKey :
    (job_name : Text) (job_id : SlurmJobId) → IsKey (artifact_key job_name job_id)
unfolding artifact_key IsKey
artifact_key-IsKey job_name job_id = (
  λ e. cc,
  all-key (artifact_key_part job_name) (artifact_key_part job_id)
      (artifact_key_part-IsKey job_name).1 (artifact_key_part-IsKey job_id).1,
)

-- ===== src/Slurm/JobId/Shape.antt =====
-- What an accepted job id looks like.
use hpc_relay.Base.{
  ℕ, ◌≤◌, ◌≡◌, ◌↔◌, refl, inl, inr, ap, true, List, [], ◌∷◌, ◌++◌, none, some, if◌then◌else◌, arith,
  all, leb→le, Bool-cases, is_zero,
}
use hpc_relay.Runner.Types.{CommandResult}
use hpc_relay.Slurm.JobId.{after_digits, is_job_id, last, pick_candidate, parse_job_id}
use hpc_relay.Slurm.Types.{SlurmJobId}
use hpc_relay.Text.{Text}
use hpc_relay.Text.Chars.{is_space, is_decimal}
use hpc_relay.Text.Split.{split_blank, strip}

-- Nothing, or an underscore and digits: the index of an array job.
pub data Suffix : Text → Type 0 where
  no_index : Suffix []
  index : (d : ℕ) (ds : Text) → all is_decimal (d ∷ ds) ≡ true → Suffix (b'_' ∷ d ∷ ds)

-- A digit from 1 to 9, digits, and perhaps the index of an array job.
pub record IsJobId (s : Text) : Type 0 where
  pub first : ℕ
  pub digits : Text
  pub suffix : Text
  pub parts : s ≡ first ∷ (digits ++ suffix)
  pub low : b'1' ≤ first
  pub high : first ≤ b'9'
  pub decimals : all is_decimal digits ≡ true
  pub suffix_is : Suffix suffix

-- Digits, then a suffix.
record Rest (s : Text) : Type 0 where
  digits : Text
  suffix : Text
  parts : s ≡ digits ++ suffix
  decimals : all is_decimal digits ≡ true
  suffix_is : Suffix suffix

after_digits-Rest : (s : Text) → after_digits s ≡ true → Rest s
unfolding after_digits
after_digits-Rest [] h = record {
  digits = [];
  suffix = [];
  parts = refl;
  decimals = refl;
  suffix_is = no_index;
}
after_digits-Rest (c ∷ []) h = record {
  digits = c ∷ [];
  suffix = [];
  parts = refl;
  decimals = ground arith;
  suffix_is = no_index;
}
after_digits-Rest (c ∷ d ∷ s) h = elim (Bool-cases (is_decimal c)) [
  | inl e ↦
      let r = after_digits-Rest (d ∷ s) (ground arith) in
      record {
        digits = c ∷ r.digits;
        suffix = r.suffix;
        parts = ap (◌∷◌ c) r.parts;
        decimals = ground arith;
        suffix_is = r.suffix_is;
      }
  | inr e ↦
      let under : c ≡ b'_' = ground arith in
      record {
        digits = [];
        suffix = c ∷ d ∷ s;
        parts = refl;
        decimals = refl;
        suffix_is = rw under (index d s (ground arith));
      }
]

after_digits-suffix : {s : Text} → Suffix s → after_digits s ≡ true
unfolding after_digits
after_digits-suffix no_index = refl
after_digits-suffix (index d ds h) = unfold is_decimal in ground (arith, h)

after_digits-append :
    (ds : Text) {s : Text} → all is_decimal ds ≡ true → Suffix s → after_digits (ds ++ s) ≡ true
unfolding after_digits
after_digits-append [] h x = after_digits-suffix x
after_digits-append (d ∷ []) h no_index = ground arith
after_digits-append (d ∷ []) h (index e es he) = ground (arith, after_digits-suffix (index e es he))
after_digits-append (d ∷ e ∷ ds) {s} h x =
    ground (arith, after_digits-append (e ∷ ds) {s = s} (ground arith) x)

is_job_id-IsJobId : (s : Text) → is_job_id s ≡ true → IsJobId s
unfolding is_job_id
is_job_id-IsJobId (c ∷ s) h =
    let r = after_digits-Rest s (ground arith) in
    record {
      first = c;
      digits = r.digits;
      suffix = r.suffix;
      parts = ap (◌∷◌ c) r.parts;
      low = leb→le _ _ (ground arith);
      high = leb→le _ _ (ground arith);
      decimals = r.decimals;
      suffix_is = r.suffix_is;
    }
is_job_id-IsJobId [] h = cc

IsJobId-is_job_id : (s : Text) → IsJobId s → is_job_id s ≡ true
unfolding is_job_id
IsJobId-is_job_id s h =
    rw h.parts (ground (arith, h.low, h.high, after_digits-append h.digits h.decimals h.suffix_is))

-- `id` is the last of `ts`.
pub record IsLast (id : Text) (ts : List Text) : Type 0 where
  pub before : List Text
  pub parts : ts ≡ before ++ id ∷ []

last-IsLast : (t : Text) (ts : List Text) → IsLast (last t ts) (t ∷ ts)
unfolding last
last-IsLast t [] = record { before = []; parts = refl }
last-IsLast t (u ∷ ts) =
    let l = last-IsLast u ts in record { before = t ∷ l.before; parts = ap (◌∷◌ t) l.parts }

last-concat : (t id : Text) (before : List Text) → last t (before ++ id ∷ []) ≡ id
unfolding last
last-concat t id [] = refl
last-concat t id (u ∷ before) = last-concat u id before

pick-IsLast : (ts : List Text) (id : Text) → pick_candidate ts ≡ some id → IsLast id ts × IsJobId id
unfolding pick_candidate
pick-IsLast [] id h = cc
pick-IsLast (t ∷ ts) id h =
    let e : last t ts ≡ id = ground arith in
    (rw e at (last-IsLast t ts), is_job_id-IsJobId id (ground arith))

IsLast-pick : (ts : List Text) (id : Text) → IsLast id ts → IsJobId id → pick_candidate ts ≡ some id
IsLast-pick ts id l h = rw l.parts (go l.before)
  where
    go : (before : List Text) → pick_candidate (before ++ id ∷ []) ≡ some id
    go [] = unfold pick_candidate last in rw (IsJobId-is_job_id id h)
    go (t ∷ before) = unfold pick_candidate in rw (last-concat t id before, IsJobId-is_job_id id h)

-- A submission yields the job id `id` exactly when sbatch exited with 0, the last blank-separated
-- field that it printed is `id`, and `id` is a number without leading zeros that may carry the
-- index of an array job.
pub parse_job_id_iff :
    (result : CommandResult) (id : SlurmJobId)
    → (parse_job_id result ≡ some id) ↔ (
        (is_zero result.return_code ≡ true)
        × IsLast id (split_blank (strip is_space result.stdout))
        × IsJobId id)
unfolding parse_job_id
parse_job_id_iff result id = (to, λ (z, l, h). rw z (IsLast-pick _ id l h))
  where
    to :
        (if is_zero result.return_code
            then pick_candidate (split_blank (strip is_space result.stdout))
            else none)
          ≡ some id
        → (is_zero result.return_code ≡ true)
          × IsLast id (split_blank (strip is_space result.stdout))
          × IsJobId id
    to e = elim (Bool-cases (is_zero result.return_code)) [
      | inl z ↦ let (l, h) = pick-IsLast _ id (rw z at e) in (z, l, h)
      | inr z ↦ absurd (cc (rw z at e))
    ]

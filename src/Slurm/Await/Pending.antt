-- ===== src/Slurm/Await/Pending.antt =====
-- How the pending jobs of a wait grow fewer.
use hpc_relay.Base.{
  In, at_head, in_tail, ◌≤◌, ◌<◌, ◌≡◌, refl, inl, inr, Bool, true, false, List, [], ◌∷◌, some,
  arith, keep_if, Bool-cases, length, if◌then◌else◌, any,
}
use hpc_relay.Slurm.Await.{Finished, find_info, put_info, is_pending, absorb}
use hpc_relay.Slurm.Sacct.Rows.{AnswersAll, no_more, answer_for}
use hpc_relay.Slurm.Types.{SlurmJobId, SlurmJobInfo, is_terminal_state}
use hpc_relay.Text.{Text, same, same_iff}

In-keep_if :
    {A : Type 0} (p : A → Bool) (x : A) (xs : List A) → In x (keep_if p xs) → In x xs × (p x ≡ true)
In-keep_if p x [] i = elim i [ ]
In-keep_if p x (y ∷ xs) i = elim (Bool-cases (p y)) [
  | inl e ↦ go e (In-keep_if p x xs) (rw e at i)
  | inr e ↦ let (j, q) = In-keep_if p x xs (rw e at i) in (in_tail j, q)
]
  where
    go :
        p y ≡ true
        → (In x (keep_if p xs) → In x xs × (p x ≡ true))
        → In x (y ∷ keep_if p xs)
        → In x (y ∷ xs) × (p x ≡ true)
    go e ih (at_head q) = (at_head q, rw q e)
    go e ih (in_tail j) = let (k, q) = ih j in (in_tail k, q)

pub length-keep_if : {A : Type 0} (p : A → Bool) (xs : List A) → length (keep_if p xs) ≤ length xs
length-keep_if p [] = omega arith
length-keep_if p (x ∷ xs) = ground (arith, length-keep_if p xs)

module _ {A : Type 0} (p q : A → Bool) (imp : (x : A) → p x ≡ false → q x ≡ false) where
  pub length-keep_if_le : (xs : List A) → length (keep_if q xs) ≤ length (keep_if p xs)
  length-keep_if_le [] = omega arith
  length-keep_if_le (x ∷ xs) = ground (arith, imp x, length-keep_if_le xs)

  pub length-keep_if_lt :
      {x : A} (xs : List A)
      → In x xs
      → p x ≡ true
      → q x ≡ false
      → length (keep_if q xs) < length (keep_if p xs)
  length-keep_if_lt {x} [] i px qx = elim i [ ]
  length-keep_if_lt {x} (y ∷ xs) (at_head e) px qx =
      let py : p y ≡ true = rw (← e) px in
      let qy : q y ≡ false = rw (← e) qx in ground (arith, length-keep_if_le xs)
  length-keep_if_lt (y ∷ xs) (in_tail i) px qx = ground (arith, imp y, length-keep_if_lt xs i px qx)

find-put :
    (id : SlurmJobId) (i : SlurmJobInfo) (done : Finished)
    → find_info id (put_info i done) ≡ (if same id i.job_id then some i else find_info id done)
unfolding find_info put_info
find-put id i [] = refl
find-put id i (j ∷ done) = elim (Bool-cases (same i.job_id j.job_id)) [
  | inl e ↦ let q = (same_iff i.job_id j.job_id).0 e in rw e (ground arith)
  | inr e ↦
      rw (e, find-put id i done)
        (ground (arith, same_iff id i.job_id, same_iff id j.job_id, same_iff i.job_id j.job_id))
]

put-keeps :
    (i : SlurmJobInfo) (done : Finished) (id : SlurmJobId)
    → is_pending done id ≡ false
    → is_pending (put_info i done) id ≡ false
unfolding is_pending
put-keeps i done id h = ground (arith, find-put id i done)

put-done : (i : SlurmJobInfo) (done : Finished) → is_pending (put_info i done) i.job_id ≡ false
unfolding is_pending
put-done i done = ground (arith, find-put i.job_id i done, same_iff i.job_id i.job_id)

pub absorb-keeps :
    (infos : List SlurmJobInfo) (done : Finished) (id : SlurmJobId)
    → is_pending done id ≡ false
    → is_pending (absorb infos done) id ≡ false
unfolding absorb
absorb-keeps [] done id h = h
absorb-keeps (i ∷ infos) done id h = elim (Bool-cases (is_terminal_state i.state)) [
  | inl e ↦ rw e (absorb-keeps infos (put_info i done) id (put-keeps i done id h))
  | inr e ↦ rw e (absorb-keeps infos done id h)
]

absorb-done :
    (infos : List SlurmJobInfo) (done : Finished) (i : SlurmJobInfo)
    → In i infos
    → is_terminal_state i.state ≡ true
    → is_pending (absorb infos done) i.job_id ≡ false
unfolding absorb
absorb-done [] done i m t = elim m [ ]
absorb-done (j ∷ infos) done i (at_head e) t =
    let q : is_terminal_state j.state ≡ true = rw (← e) t in
    rw (q, e) (absorb-keeps infos (put_info j done) j.job_id (put-done j done))
absorb-done (j ∷ infos) done i (in_tail m) t = elim (Bool-cases (is_terminal_state j.state)) [
  | inl e ↦ rw e (absorb-done infos (put_info j done) i m t)
  | inr e ↦ rw e (absorb-done infos done i m t)
]

abbrev pub has_terminal : List SlurmJobInfo → Bool
has_terminal infos = any (λ i. is_terminal_state i.state) infos

-- A terminal info among the answers is that of a job asked for.
asked :
    {expected : List SlurmJobId} {lines : List Text} {ids : List SlurmJobId}
    {infos : List SlurmJobInfo}
    → AnswersAll expected lines ids infos
    → has_terminal infos ≡ true
    → (i : SlurmJobInfo) × In i infos × (is_terminal_state i.state ≡ true) × In i.job_id ids
asked no_more h = absurd (ground arith)
asked (answer_for {info} a more) h = elim (Bool-cases (is_terminal_state info.state)) [
  | inl e ↦ (info, at_head refl, e, at_head a.job_id)
  | inr e ↦ let (i, m, t, k) = asked more (ground arith) in (i, in_tail m, t, in_tail k)
]

-- A poll that finds a job in a terminal state leaves fewer pending, and no poll leaves more.
pub pending-absorb_lt :
    {expected : List SlurmJobId} {lines : List Text} {infos : List SlurmJobInfo}
    (ids : List SlurmJobId) (done : Finished)
    → AnswersAll expected lines (keep_if (is_pending done) ids) infos
    → has_terminal infos ≡ true
    → length (keep_if (is_pending (absorb infos done)) ids) < length (keep_if (is_pending done) ids)
pending-absorb_lt {infos} ids done answers h =
    let (i, m, t, k) = asked answers h in
    let (at_id, waits) = In-keep_if (is_pending done) i.job_id ids k in
    length-keep_if_lt (is_pending done) (is_pending (absorb infos done)) (absorb-keeps infos done)
      ids at_id waits (absorb-done infos done i m t)

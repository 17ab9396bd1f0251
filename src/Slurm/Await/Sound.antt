-- ===== src/Slurm/Await/Sound.antt =====
-- The list that a wait returns.
use hpc_relay.Base.{
  ℕ, zero, suc, ◌≡◌, refl, inl, inr, true, List, [], ◌∷◌, some, arith, All, keep_if, Bool-cases,
  Option-cases, length, ltb,
}
use hpc_relay.Exec.{Outcome, returns, raises, Exec, ◌>>=◌, and_then}
use hpc_relay.Result.{Result, ok, err}
use hpc_relay.Runner.Types.{Command, CommandResult}
use hpc_relay.Slurm.Await.{
  Finished, find_info, put_info, is_pending, absorb, in_order, Answer, all_done, after_poll,
  await_loop, await_completion,
}
use hpc_relay.Slurm.Sacct.{get_slurm_job_states}
use hpc_relay.Slurm.Types.{SlurmJobId, SlurmJobInfo, is_terminal_state}
use hpc_relay.Text.{same, same_iff}

abbrev IsDone : SlurmJobInfo → Type 0
IsDone i = is_terminal_state i.state ≡ true

find_info-IsDone :
    (id : SlurmJobId) (done : Finished) (i : SlurmJobInfo)
    → All IsDone done
    → find_info id done ≡ some i
    → (i.job_id ≡ id) × IsDone i
unfolding find_info
find_info-IsDone id [] i h f = cc
find_info-IsDone id (j ∷ done) i h f = elim (Bool-cases (same id j.job_id)) [
  | inl e ↦
      let p : j ≡ i = ground arith in let q = (same_iff id j.job_id).0 e in rw (← p) (cc q, h.0)
  | inr e ↦ find_info-IsDone id done i h.1 (ground arith)
]

put_info-IsDone :
    (i : SlurmJobInfo) (done : Finished) → IsDone i → All IsDone done → All IsDone (put_info i done)
unfolding put_info
put_info-IsDone i [] d h = (d, tt)
put_info-IsDone i (j ∷ done) d h = elim (Bool-cases (same i.job_id j.job_id)) [
  | inl e ↦ rw e (d, h.1)
  | inr e ↦ rw e (h.0, put_info-IsDone i done d h.1)
]

absorb-IsDone :
    (infos : List SlurmJobInfo) (done : Finished) → All IsDone done → All IsDone (absorb infos done)
unfolding absorb
absorb-IsDone [] done h = h
absorb-IsDone (i ∷ infos) done h = elim (Bool-cases (is_terminal_state i.state)) [
  | inl e ↦ rw e (absorb-IsDone infos (put_info i done) (put_info-IsDone i done e h))
  | inr e ↦ rw e (absorb-IsDone infos done h)
]

-- One info for each id, in the order of the ids, each in a terminal state.
pub data Final : List SlurmJobId → List SlurmJobInfo → Type 0 where
  none_left : Final [] []
  final :
      {id : SlurmJobId} {i : SlurmJobInfo} {ids : List SlurmJobId} {infos : List SlurmJobInfo}
      → i.job_id ≡ id
      → is_terminal_state i.state ≡ true
      → Final ids infos
      → Final (id ∷ ids) (i ∷ infos)

-- No `KeyError`: with no id pending, every id has its info.
in_order-Final :
    (done : Finished) (ids : List SlurmJobId)
    → All IsDone done
    → keep_if (is_pending done) ids ≡ []
    → (infos : List SlurmJobInfo) × (in_order done ids ≡ returns infos) × Final ids infos
unfolding in_order is_pending
in_order-Final done [] h e = ([], refl, none_left)
in_order-Final done (id ∷ ids) h e = elim (Option-cases (find_info id done)) [
  | inl n ↦ absurd (ground arith)
  | inr (i, f) ↦
      let (infos, o, fin) = in_order-Final done ids h (ground arith) in
      let (p, t) = find_info-IsDone id done i h f in (i ∷ infos, ground arith, final p t fin)
]

module _ {S : Type 0} (run_cmd : Command → Exec S (Result CommandResult))
    (sleep : ℕ → Exec S (Unit {0})) (secs : ℕ) (ids : List SlurmJobId)
    (infos : List SlurmJobInfo) where
  -- `m` returns the list `infos`, if it does, as the final one.
  abbrev Finishes : Exec S Answer → Type 0
  Finishes m = (s s' : S) → m s ≡ (returns (some (ok infos)), s') → Final ids infos

  bind-Finishes :
      {A : Type 0} (m : Exec S A) (f : A → Exec S Answer)
      → ((a : A) → Finishes (f a))
      → Finishes (m >>= f)
  bind-Finishes {A} m f k s s' = go (m s)
    where
      go : (o : Outcome A × S) → and_then o f ≡ (returns (some (ok infos)), s') → Final ids infos
      go (returns a, t) h = k a t s' h
      go (raises e, t) h = absurd (ground arith)

  after_poll-Finishes :
      (done : Finished) (again : Finished → Exec S Answer) (r : Result (List SlurmJobInfo))
      → All IsDone done
      → ((done' : Finished) → All IsDone done' → Finishes (again done'))
      → Finishes (after_poll run_cmd sleep secs ids done again r)
  unfolding after_poll
  after_poll-Finishes done again (err e) d k s s' h = absurd (ground arith)
  after_poll-Finishes done again (ok is) d k s s' h =
      elim (Bool-cases (ltb (length (absorb is done)) (length ids))) [
        | inl e ↦
            bind-Finishes (sleep secs) (λ _. again (absorb is done))
              (λ _. k (absorb is done) (absorb-IsDone is done d)) s s' (rw e at h)
        | inr e ↦ k (absorb is done) (absorb-IsDone is done d) s s' (rw e at h)
      ]

  await_loop-Finishes :
      (fuel : ℕ) (done : Finished)
      → All IsDone done
      → Finishes (await_loop run_cmd sleep secs fuel ids done)
  unfolding await_loop all_done
  await_loop-Finishes zero done d s s' h = absurd (ground arith)
  await_loop-Finishes (suc fuel) done d s s' h =
      go (await_loop-Finishes fuel) (keep_if (is_pending done) ids) refl
    where
      go :
          ((done' : Finished)
            → All IsDone done'
            → Finishes (await_loop run_cmd sleep secs fuel ids done'))
          → (ps : List SlurmJobId) → keep_if (is_pending done) ids ≡ ps
          → Final ids infos
      go ih [] e =
          let (infos', o, fin) = in_order-Final done ids d e in
          let p : infos' ≡ infos = ground (arith, o, rw (e, await_loop) at h) in rw p at fin
      go ih (p ∷ ps) e =
          bind-Finishes (get_slurm_job_states run_cmd (p ∷ ps))
            (λ r. after_poll run_cmd sleep secs ids done (await_loop run_cmd sleep secs fuel ids) r)
            (λ r. after_poll-Finishes done (await_loop run_cmd sleep secs fuel ids) r d ih) s s'
            (rw (e, await_loop) at h)

-- A wait that returns a list has one entry for each id, in the order of the ids, and each in a
-- terminal state.
pub await_completion-Final :
    {S : Type 0} (run_cmd : Command → Exec S (Result CommandResult)) (sleep : ℕ → Exec S (Unit {0}))
    (secs fuel : ℕ) (ids : List SlurmJobId) (s s' : S) (infos : List SlurmJobInfo)
    → await_completion run_cmd sleep secs fuel ids s ≡ (returns (some (ok infos)), s')
    → Final ids infos
unfolding await_completion
await_completion-Final run_cmd sleep secs fuel [] s s' infos h =
    let p : ◌≡◌ {A = List SlurmJobInfo} [] infos = ground arith in rw (← p) none_left
await_completion-Final run_cmd sleep secs fuel (id ∷ ids) s s' infos h =
    await_loop-Finishes run_cmd sleep secs (id ∷ ids) infos fuel [] tt s s' h

-- ===== src/Slurm/Await/Ends.antt =====
-- The wait ends, if the HPC makes progress.
use hpc_relay.Base.{
  ℕ, zero, suc, ◌+◌, ◌≤◌, ◌<◌, ◌≡◌, ◌≢◌, refl, ◌⊎◌, inl, inr, true, List, [], ◌∷◌, none, arith,
  keep_if, Bool-cases, length, ltb,
}
use hpc_relay.Exec.{Outcome, returns, raises, Exec, ◌>>◌, and_then}
use hpc_relay.Result.{Result, ok, err}
use hpc_relay.Runner.Types.{Command, CommandResult}
use hpc_relay.Slurm.Await.{
  Finished, is_pending, absorb, in_order, Answer, all_done, after_poll, await_loop,
  await_completion,
}
use hpc_relay.Slurm.Await.Pending.{
  has_terminal, absorb-keeps, length-keep_if, length-keep_if_le, pending-absorb_lt,
}
use hpc_relay.Slurm.Sacct.{get_slurm_job_states}
use hpc_relay.Slurm.Sacct.Rows.{get_slurm_job_states_sound}
use hpc_relay.Text.Split.{split_lines}
use hpc_relay.Slurm.Types.{SlurmJobId, SlurmJobInfo}

module _ {S : Type 0} (run_cmd : Command → Exec S (Result CommandResult))
    (sleep : ℕ → Exec S (Unit {0})) (secs : ℕ) where
  -- `rank` bounds the polls that may pass without news: a poll that shows no terminal job lowers it,
  -- and neither a poll nor a sleep raises it.
  pub record MakesProgress (rank : S → ℕ) : Type 0 where
    pub polls :
        (id : SlurmJobId) (ids : List SlurmJobId) (s s' : S) (infos : List SlurmJobInfo)
        → get_slurm_job_states run_cmd (id ∷ ids) s ≡ (returns (ok infos), s')
        → ((has_terminal infos ≡ true) × (rank s' ≤ rank s)) ⊎ (rank s' < rank s)
    pub sleeps : (s s' : S) → sleep secs s ≡ (returns tt, s') → rank s' ≤ rank s

  -- `m` ends from every state of a rank up to `n`.
  abbrev Ends : (S → ℕ) → ℕ → Exec S Answer → Type 0
  Ends rank n m = (s : S) → rank s ≤ n → (m s).0 ≢ returns none

  module _ (rank : S → ℕ) (progress : MakesProgress rank) (ids : List SlurmJobId) where
    waiting : Finished → ℕ
    waiting done = length (keep_if (is_pending done) ids)

    sleep-Ends : (n : ℕ) (m : Exec S Answer) → Ends rank n m → Ends rank n (sleep secs >> m)
    sleep-Ends n m e s h = go (sleep secs s) refl
      where
        go :
            (o : Outcome (Unit {0}) × S) → sleep secs s ≡ o → ((sleep secs >> m) s).0 ≢ returns none
        go (raises x, t) q = rw q (λ p. cc)
        go (returns _, t) q = rw q (e t (omega (arith, progress.sleeps s t q)))

    after_poll-Ends :
        (n : ℕ) (done : Finished) (again : Finished → Exec S Answer) (infos : List SlurmJobInfo)
        → Ends rank n (again (absorb infos done))
        → Ends rank n (after_poll run_cmd sleep secs ids done again (ok infos))
    unfolding after_poll
    after_poll-Ends n done again infos e =
        elim (Bool-cases (ltb (length (absorb infos done)) (length ids))) [
          | inl b ↦ rw b (sleep-Ends n (again (absorb infos done)) e)
          | inr b ↦ rw b e
        ]

    -- One unit of fuel more than the rank and the jobs that wait.
    abbrev Runs : ℕ → Type 0
    Runs fuel =
        (done : Finished) (s : S)
        → rank s + waiting done < fuel
        → (await_loop run_cmd sleep secs fuel ids done s).0 ≢ returns none

    waiting-absorb_le :
        (infos : List SlurmJobInfo) (done : Finished) → waiting (absorb infos done) ≤ waiting done
    unfolding waiting
    waiting-absorb_le infos done =
        length-keep_if_le (is_pending done) (is_pending (absorb infos done))
          (absorb-keeps infos done) ids

    -- What a poll that returns a list leaves to do.
    falls :
        (p : SlurmJobId) (ps : List SlurmJobId) (done : Finished) (s t : S)
        (infos : List SlurmJobInfo)
        → keep_if (is_pending done) ids ≡ p ∷ ps
        → get_slurm_job_states run_cmd (p ∷ ps) s ≡ (returns (ok infos), t)
        → rank t + waiting (absorb infos done) < rank s + waiting done
    unfolding waiting
    falls p ps done s t infos e g = elim (progress.polls p ps s t infos g) [
      | inr less ↦ omega (arith, waiting-absorb_le infos done)
      | inl (found, le) ↦ elim (get_slurm_job_states_sound run_cmd (p ∷ ps) s t infos g) [
        | inl (nil, _, _) ↦ absurd (ground arith)
        | inr (res, _, answers) ↦
            let q =
              pending-absorb_lt {expected = p ∷ ps} {lines = split_lines res.stdout} ids done
                (rw e answers) found in
            omega (arith, q)
      ]
    ]

    answered-Ends :
        (fuel : ℕ) (p : SlurmJobId) (ps : List SlurmJobId) (done : Finished) (s : S)
        → Runs fuel
        → rank s + waiting done < suc fuel
        → keep_if (is_pending done) ids ≡ p ∷ ps
        → (o : Outcome (Result (List SlurmJobInfo)) × S)
        → get_slurm_job_states run_cmd (p ∷ ps) s ≡ o
        → (and_then o
            (after_poll run_cmd sleep secs ids done (await_loop run_cmd sleep secs fuel ids))).0
          ≢ returns none
    answered-Ends fuel p ps done s ih h e (raises x, t) g = λ q. cc
    answered-Ends fuel p ps done s ih h e (returns (err x), t) g = unfold after_poll in λ q. cc
    answered-Ends fuel p ps done s ih h e (returns (ok infos), t) g =
        after_poll-Ends (rank t) done (await_loop run_cmd sleep secs fuel ids) infos
          (λ u le. ih (absorb infos done) u (omega (arith, falls p ps done s t infos e g))) t
          (omega arith)

    all_done-Ends : (o : Outcome (List SlurmJobInfo)) → all_done o ≢ returns none
    unfolding all_done
    all_done-Ends (raises x) q = cc
    all_done-Ends (returns infos) q = cc

    await_loop-Runs : (fuel : ℕ) → Runs fuel
    unfolding await_loop
    await_loop-Runs zero done s h = absurd (omega arith)
    await_loop-Runs (suc fuel) done s h =
        go (await_loop-Runs fuel) (keep_if (is_pending done) ids) refl
      where
        go :
            Runs fuel
            → (ps : List SlurmJobId) → keep_if (is_pending done) ids ≡ ps
            → (await_loop run_cmd sleep secs (suc fuel) ids done s).0 ≢ returns none
        go ih [] e = rw (e, await_loop) (all_done-Ends (in_order done ids))
        go ih (p ∷ ps) e =
            rw (e, await_loop)
              (answered-Ends fuel p ps done s ih h e (get_slurm_job_states run_cmd (p ∷ ps) s) refl)

  -- The wait ends, with a list, an error or an exception, before its fuel does, if the rank of the
  -- start and the number of jobs are together below the fuel.
  pub await_completion_ends :
      (rank : S → ℕ)
      → MakesProgress rank
      → (ids : List SlurmJobId) (s : S) (fuel : ℕ) → rank s + length ids < fuel
      → (await_completion run_cmd sleep secs fuel ids s).0 ≢ returns none
  unfolding await_completion
  await_completion_ends rank progress [] s fuel h = λ q. cc
  await_completion_ends rank progress (id ∷ ids) s fuel h =
      await_loop-Runs rank progress (id ∷ ids) fuel [] s
        (unfold waiting in omega (arith, length-keep_if (is_pending []) (id ∷ ids)))

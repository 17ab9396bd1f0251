-- ===== src/Slurm/Await.antt =====
-- `await_completion` of hpc_relay/slurm.py. `run_cmd` and `asyncio.sleep` are parameters. The loop has
-- fuel, one unit for each round, and answers `none` where the fuel ends: Await/Ends says when it does not.
pub mod Pending
pub mod Sound
pub mod Ends
use hpc_relay.Base.{
  ℕ, zero, suc, Bool, true, false, List, [], ◌∷◌, Option, none, some, if◌then◌else◌, keep_if,
  length, ltb,
}
use hpc_relay.Exec.{Outcome, returns, raises, Exec, pure, ◌>>=◌, ◌>>◌}
use hpc_relay.Result.{key_error, Result, ok, err}
use hpc_relay.Runner.Types.{Command, CommandResult}
use hpc_relay.Slurm.Sacct.{get_slurm_job_states}
use hpc_relay.Slurm.Types.{SlurmJobId, SlurmJobInfo, is_terminal_state}
use hpc_relay.Text.{same}

-- `done: dict[SlurmJobId, SlurmJobInfo]`, each info under its own job id.
abbrev pub Finished : Type 0
Finished = List SlurmJobInfo

unfoldable pub find_info : SlurmJobId → Finished → Option SlurmJobInfo
find_info id [] = none
find_info id (i ∷ done) = if same id i.job_id then some i else find_info id done

-- done[info.job_id] = info
unfoldable pub put_info : SlurmJobInfo → Finished → Finished
put_info i [] = i ∷ []
put_info i (j ∷ done) = if same i.job_id j.job_id then i ∷ done else j ∷ put_info i done

-- jid not in done
unfoldable pub is_pending : Finished → SlurmJobId → Bool
unfolding find_info
is_pending done id = elim (find_info id done) [ none ↦ true | some i ↦ false ]

-- for info in infos: if is_terminal_state(info.state): done[info.job_id] = info
unfoldable pub absorb : List SlurmJobInfo → Finished → Finished
absorb [] done = done
absorb (i ∷ infos) done = absorb infos (if is_terminal_state i.state then put_info i done else done)

-- [done[jid] for jid in job_ids]
unfoldable pub in_order : Finished → List SlurmJobId → Outcome (List SlurmJobInfo)
in_order done [] = returns []
in_order done (id ∷ ids) = elim (find_info id done) [
  | none ↦ raises key_error
  | some i ↦ elim (in_order done ids) [ raises e ↦ raises e | returns infos ↦ returns (i ∷ infos) ]
]

abbrev pub Answer : Type 0
Answer = Option (Result (List SlurmJobInfo))

unfoldable pub all_done : Outcome (List SlurmJobInfo) → Outcome Answer
all_done (raises e) = raises e
all_done (returns infos) = returns (some (ok infos))

module _ {S : Type 0} (run_cmd : Command → Exec S (Result CommandResult))
    (sleep : ℕ → Exec S (Unit {0})) (poll_interval_secs : ℕ) where
  -- Behind the poll: an error ends the wait; otherwise the finished jobs are kept, and the loop
  -- sleeps if it has fewer of them than jobs.
  unfoldable pub after_poll :
      List SlurmJobId
      → Finished
      → (Finished → Exec S Answer)
      → Result (List SlurmJobInfo)
      → Exec S Answer
  after_poll ids done again (err e) = pure (some (err e))
  after_poll ids done again (ok infos) =
      let done' = absorb infos done in
      if ltb (length done') (length ids)
      then sleep poll_interval_secs >> again done'
      else again done'

  unfoldable pub await_loop : ℕ → List SlurmJobId → Finished → Exec S Answer
  unfolding after_poll
  await_loop zero ids done = pure none
  await_loop (suc fuel) ids done = elim (keep_if (is_pending done) ids) [
    | [] ↦ λ s. (all_done (in_order done ids), s)
    | p ∷ ps ↦ (do
      infos ← get_slurm_job_states run_cmd (p ∷ ps)
      after_poll ids done (await_loop fuel ids) infos)
  ]

  unfoldable pub await_completion : ℕ → List SlurmJobId → Exec S Answer
  unfolding await_loop
  await_completion fuel [] = pure (some (ok []))
  await_completion fuel (id ∷ ids) = await_loop fuel (id ∷ ids) []

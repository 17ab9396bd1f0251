-- ===== src/Unicore/Deleted.antt =====
-- That a job that was created is deleted, once and last, whatever happens in between.
use hpc_relay.Base.{
  ℕ, suc, ◌≡◌, refl, ◌∙◌, Bool, false, List, [], ◌∷◌, ◌++◌, none, some, if◌then◌else◌, arith,
}
use hpc_relay.Exec.{Outcome, returns, raises, and_then}
use hpc_relay.Result.{Exc}
use hpc_relay.Runner.Types.{CommandResult}
use hpc_relay.Text.{Text}
use hpc_relay.Unicore.Kept.{is_delete, attend-Keeps}
use hpc_relay.Unicore.{
  JobDesc, Client, Call, new_job, delete, Site, asks, Waiting, always, attend, submit_and_wait,
}

-- The deletions of a log.
unfoldable pub deletes : List Call → ℕ
deletes [] = 0
deletes (call ∷ log) = let n = deletes log in if is_delete call then suc n else n

deletes-append_one :
    (log : List Call) (k : Call)
    → deletes (log ++ k ∷ []) ≡ (if is_delete k then suc (deletes log) else deletes log)
unfolding deletes
deletes-append_one [] k = refl
deletes-append_one (x ∷ log) k = ground (arith, deletes-append_one log k)

-- So many deletions were made.
record Made (n : ℕ) (log : List Call) : Type 0 where
  made : deletes log ≡ n

Made-kept :
    {n : ℕ} (log : List Call) (k : Call) → is_delete k ≡ false → Made n log → Made n (log ++ k ∷ [])
Made-kept log k e h = record { made = deletes-append_one log k ∙ rw e h.made }

-- How `_submit_and_wait` ends. The job was not created; or the wait goes on and the job was not deleted;
-- or it is over, by a result or by an exception, and the last call is the only deletion.
pub data JobEnd (client : Client) (job_desc : JobDesc) (log : List Call)
    : Outcome (Waiting CommandResult) × List Call → Type 0 where
  not_created :
      (e : Exc) (l : List Call)
      → l ≡ log ++ new_job client job_desc ∷ []
      → JobEnd client job_desc log (raises e, l)
  waiting : (l : List Call) → deletes l ≡ deletes log → JobEnd client job_desc log (returns none, l)
  finished :
      (r : CommandResult) (l before : List Call)
      → l ≡ before ++ delete ∷ []
      → deletes before ≡ deletes log
      → JobEnd client job_desc log (returns (some r), l)
  broken :
      (e : Exc) (l before : List Call)
      → l ≡ before ++ delete ∷ []
      → deletes before ≡ deletes log
      → JobEnd client job_desc log (raises e, l)

-- However the calls come out, `_submit_and_wait` raises with only the request for the job made, where
-- the job was not created; or, for as many rounds as are given, it is still waiting, and has not deleted
-- the job; or it returns a result or raises, and its last call is the one deletion of the job.
pub submit_and_wait-JobEnd :
    (site : Site) (decode : Text → Text) (rounds : ℕ) (client : Client) (job_desc : JobDesc)
    (log : List Call)
    → JobEnd client job_desc log (submit_and_wait site decode rounds client job_desc log)
unfolding submit_and_wait
submit_and_wait-JobEnd site decode rounds client job_desc log =
    created (site.flag (log ++ new_job client job_desc ∷ []))
  where
    start : List Call
    start = log ++ new_job client job_desc ∷ []

    ends :
        (o : Outcome (Waiting CommandResult) × List Call)
        → Made (deletes log) o.1
        → JobEnd client job_desc log (always (asks site.flag delete) o)
    ends (returns none, l) m = waiting l m.made
    ends (returns (some r), l) m = finished r _ l refl m.made
    ends (raises e, l) m = broken e _ l refl m.made

    created :
        (o : Outcome Bool)
        → JobEnd client job_desc log (
            and_then
              (o, start)
              (λ _ l. always (asks site.flag delete) (attend site decode rounds l)))
    created (raises e) = not_created e start refl
    created (returns b) = ends (attend site decode rounds start) (
        (attend-Keeps Made-kept site decode rounds).at start
          (record { made = deletes-append_one log (new_job client job_desc) }))

-- ===== src/Unicore/Ends.antt =====
-- That the wait for a UNICORE job ends once the site shows the job in a terminal status.
use hpc_relay.Base.{
  ℕ, zero, suc, ◌+◌, ◌≤◌, ◌<◌, ◌≡◌, refl, Bool, true, false, List, [], ◌∷◌, ◌++◌, Option, none,
  some, if◌then◌else◌, arith,
}
use hpc_relay.Exec.{Outcome, returns, raises, Exec, pure, ◌>>=◌, and_then}
use hpc_relay.Result.{Exc}
use hpc_relay.Runner.Types.{CommandResult}
use hpc_relay.Text.{Text}
use hpc_relay.Unicore.Kept.{is_delete, round-Keeps}
use hpc_relay.Unicore.{
  JobDesc, Client, Call, new_job, properties, job_id, working_dir, resource_url, delete, Properties,
  Site, asks, Drained, undrained, Waiting, always, is_terminal, status_of, job_status, poll_round,
  finish, watch, attend, submit_and_wait,
}

abbrev pub is_status : Call → Bool
is_status properties = true
is_status _ = false

-- The requests for the properties of the job in a log.
unfoldable pub statuses : List Call → ℕ
statuses [] = 0
statuses (call ∷ log) = let n = statuses log in if is_status call then suc n else n

statuses-append_one :
    (log : List Call) (k : Call)
    → statuses (log ++ k ∷ []) ≡ (if is_status k then suc (statuses log) else statuses log)
unfolding statuses
statuses-append_one [] k = refl
statuses-append_one (x ∷ log) k = ground (arith, statuses-append_one log k)

-- An answer that does not show a status that the loop waits on.
unfoldable pub is_over : Outcome (Option Properties) → Bool
is_over (returns (some p)) = elim p.status [ none ↦ true | some status ↦ is_terminal status ]
is_over _ = true

record AtLeast (n : ℕ) (log : List Call) : Type 0 where
  enough : n ≤ statuses log

AtLeast-kept :
    {n : ℕ} (log : List Call) (k : Call)
    → is_delete k ≡ false
    → AtLeast n log
    → AtLeast n (log ++ k ∷ [])
AtLeast-kept log k e h = record { enough = ground (arith, h.enough, statuses-append_one log k) }

-- An end that is not that of the rounds.
pub data Over {A : Type 0} : Outcome (Waiting A) × List Call → Type 0 where
  result : (a : A) (l : List Call) → Over (returns (some a), l)
  raised : (e : Exc) (l : List Call) → Over (raises e, l)

wrap-Over : {A : Type 0} (o : Outcome A × List Call) → Over (and_then o (λ a. pure (some a)))
wrap-Over (returns a, l) = result a l
wrap-Over (raises e, l) = raised e l

Over-bind :
    {A B : Type 0} (o : Outcome A × List Call) (f : A → Exec (List Call) (Waiting B))
    → ((a : A) (l : List Call) → Over (f a l))
    → Over (and_then o f)
Over-bind (returns a, l) f h = h a l
Over-bind (raises e, l) f h = raised e l

always-Over :
    {A : Type 0} (cleanup : Exec (List Call) Bool) (o : Outcome (Waiting A) × List Call)
    → Over o
    → Over (always cleanup o)
always-Over cleanup _ (result a l) = result a _
always-Over cleanup _ (raised e l) = raised e _

module _ (site : Site) (decode : Text → Text) (k : ℕ)
    (over : (log : List Call) → k ≤ statuses log → is_over (site.props log) ≡ true) where
  -- What follows the look at the status.
  abbrev after_status : ℕ → Drained → Bool → Exec (List Call) (Waiting CommandResult)
  after_status rounds d true = finish site decode d >>= λ r. pure (some r)
  after_status rounds d false = poll_round site decode d >>= watch site decode rounds

  -- The wait comes to an end from this log.
  abbrev Ends : ℕ → Drained → List Call → Type 0
  Ends rounds d log = 1 ≤ rounds → k ≤ rounds + statuses log → Over (watch site decode rounds d log)

  module _ (rounds : ℕ) (more : (d : Drained) (log : List Call) → Ends rounds d log) (d : Drained)
      (log : List Call) (enough : k ≤ suc rounds + statuses log) where
    abbrev asked : List Call
    asked = log ++ properties ∷ []

    one_more : statuses asked ≡ suc (statuses log)
    one_more = statuses-append_one log properties

    again-Over :
        (o : Outcome Drained × List Call)
        → AtLeast (statuses asked) o.1
        → 1 ≤ rounds
        → Over (and_then o (watch site decode rounds))
    again-Over (returns d', l) h left = more d' l left (omega (arith, h.enough, one_more, enough))
    again-Over (raises e, l) h left = raised e l

    after_status-Over :
        (b : Bool) → (k ≤ statuses asked → b ≡ true) → Over (after_status rounds d b asked)
    after_status-Over true h = wrap-Over (finish site decode d asked)
    after_status-Over false h =
        again-Over (poll_round site decode d asked)
          ((round-Keeps AtLeast-kept site decode d).at asked (record { enough = omega arith }))
          (ground (arith, h, one_more, enough))

    abbrev with_status : Properties → Option Text → Option Properties
    with_status p s = some (record { status = s; exit_code = p.exit_code })

    look-Over :
        (o : Outcome (Option Properties))
        → (k ≤ statuses asked → is_over o ≡ true)
        → Over (
            and_then
              (and_then (o, asked) status_of)
              (λ status. after_status rounds d (is_terminal status)))
    unfolding is_over
    look-Over (raises e) h = raised e asked
    look-Over (returns none) h = raised _ asked
    look-Over (returns (some p)) h = go p.status h
      where
        go :
            (s : Option Text)
            → (k ≤ statuses asked → is_over (returns (with_status p s)) ≡ true)
            → Over (
                and_then
                  (status_of (with_status p s) asked)
                  (λ status. after_status rounds d (is_terminal status)))
        go none h = raised _ asked
        go (some status) h = after_status-Over (is_terminal status) h

  watch-Over : (rounds : ℕ) (d : Drained) (log : List Call) → Ends rounds d log
  unfolding watch job_status
  watch-Over zero d log some_left enough = absurd (omega arith)
  watch-Over (suc rounds) d log some_left enough =
      look-Over rounds (watch-Over rounds) d log enough (site.props (log ++ properties ∷ []))
        (over (log ++ properties ∷ []))

  attend-Over : (rounds : ℕ) (log : List Call) → k < rounds → Over (attend site decode rounds log)
  unfolding attend
  attend-Over rounds log some_left = Over-bind (asks site.content job_id log) _ (λ a l1.
      Over-bind (job_status site decode l1) _ (λ b l2.
        Over-bind (asks site.content working_dir l2) _ (λ c l3.
          Over-bind (asks site.content resource_url l3) _ (λ d l4.
            Over-bind (asks site.content working_dir l4) _
              (λ e l. watch-Over rounds undrained l (omega arith) (omega arith))))))

  -- Where from the k-th request for its properties on, the site no longer shows the job in a status that
  -- is not terminal, more than k rounds are enough for `_submit_and_wait`: it returns a result or raises.
  pub submit_and_wait-Over :
      (rounds : ℕ) (client : Client) (job_desc : JobDesc) (log : List Call)
      → k < rounds
      → Over (submit_and_wait site decode rounds client job_desc log)
  unfolding submit_and_wait
  submit_and_wait-Over rounds client job_desc log some_left =
      Over-bind (asks site.flag (new_job client job_desc) log) _ (λ _ l.
        always-Over (asks site.flag delete) (attend site decode rounds l)
          (attend-Over rounds l some_left))

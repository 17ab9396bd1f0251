-- ===== src/Sbatch/Wait/Down.antt =====
-- `wait_completion_single` while every call of the Prefect API fails.
use hpc_relay.Base.{
  ℕ, zero, suc, ◌+◌, ◌-◌, ◌*◌, ◌≤◌, ◌<◌, ◌≡◌, refl, ◌∙◌, Bool, true, false, ◌||◌, Option, none,
  some, if◌then◌else◌, ltb, Bool-cases, inl, inr, List, [], arith,
}
use hpc_relay.Exec.{Outcome, returns, raises, Exec, handle, and_then, ◌>>=◌, pure}
use hpc_relay.Result.{Exc, op_error, ok, err}
use hpc_relay.Sbatch.Guard.{is_signal, fold_jobs, guard_in, flow_cancellation_guard}
use hpc_relay.Sbatch.Poll.{Poll, after_guard, poll_completion_once}
use hpc_relay.Sbatch.Refresh.{try_update_status}
use hpc_relay.Sbatch.Variables.{truthy, list_status_payloads, lease_expired}
use hpc_relay.Sbatch.Wait.{
  is_outage, gives_up, next_backoff, after_poll, bear_outage, after_raise, wait_loop,
  wait_completion_single,
}
use hpc_relay.Sbatch.Wait.Outage.{time, GoesForward}
use hpc_relay.Sbatch.World.{Env, World, Variable, api_read, read_flow_run, now_utc, sleep, tick}
use hpc_relay.Slurm.Types.{SlurmJobId}
use hpc_relay.Text.{Text}

-- Each call of the API fails with an exception that the wait takes for an outage.
pub record ApiDown (env : Env) : Type 0 where
  pub failure : ℕ → Exc
  pub fails : (n : ℕ) → env.api n ≡ some (failure n)
  pub is_out : (n : ℕ) → is_outage (failure n) ≡ true

-- An action begun in the world `w` has raised such an exception, and has not slept.
data Fallen {A : Type 0} (w : World) : Outcome A × World → Type 0 where
  fallen :
      (e : Exc) (v : World)
      → is_outage e ≡ true
      → w.events ≤ v.events
      → v.slept ≡ w.slept
      → Fallen w (raises e, v)

earlier :
    {A : Type 0} (w u : World) (o : Outcome A × World)
    → w.events ≤ u.events
    → u.slept ≡ w.slept
    → Fallen u o
    → Fallen w o
earlier w u o before same_slept (fallen e v outage later slept) =
    fallen e v outage (ground arith) (slept ∙ same_slept)

record Falls {A : Type 0} (m : Exec World A) : Type 0 where
  at : (w : World) → Fallen w (m w)

module _ {A B : Type 0} where
  Falls-bind : (m : Exec World A) (f : A → Exec World B) → Falls m → Falls (m >>= f)
  Falls-bind m f falls = record { at = λ w. go w (m w) (falls.at w) }
    where
      go : (w : World) (o : Outcome A × World) → Fallen w o → Fallen w (and_then o f)
      go w o (fallen e v outage later slept) = fallen e v outage later slept

module _ (env : Env) (down : ApiDown env) (hpc : Text) where
  api_read-Falls : {A : Type 0} (f : List Variable → A) → Falls (api_read env f)
  unfolding api_read
  api_read-Falls f = record {
    at = λ w.
        rw (down.fails w.events, api_read)
          (fallen (down.failure w.events) _ (down.is_out w.events) (ground arith) refl);
  }

  fold_jobs-Falls : (run : Text) → Falls (fold_jobs env hpc run)
  unfolding fold_jobs list_status_payloads
  fold_jobs-Falls run = search (Falls-bind, api_read-Falls)

  lease_expired-Falls : Falls (lease_expired env hpc)
  unfolding lease_expired
  lease_expired-Falls = search (Falls-bind, api_read-Falls)

  after_guard-Falls : (job_id : SlurmJobId) → Falls (after_guard env hpc job_id (ok []))
  unfolding after_guard try_update_status
  after_guard-Falls job_id = search (Falls-bind, lease_expired-Falls)

  signal-Falls :
      (signal : Bool) (run : Text) (job_id : SlurmJobId)
      → Falls
          ((if signal then fold_jobs env hpc run else pure (ok [])) >>= after_guard env hpc job_id)
  signal-Falls true run job_id = search (Falls-bind, fold_jobs-Falls)
  signal-Falls false run job_id = record { at = λ w. (after_guard-Falls job_id).at w }

  guard_in-Falls :
      (run : Option Text) (job_id : SlurmJobId)
      → Falls (guard_in env hpc run >>= after_guard env hpc job_id)
  unfolding guard_in read_flow_run
  guard_in-Falls none job_id = record { at = λ w. (after_guard-Falls job_id).at w }
  guard_in-Falls (some run) job_id = record {
    at = λ w. earlier w (tick w (env.others w.events w.vars)) _ (ground arith) refl (
        (signal-Falls (is_signal (env.flow_run w.events)) run job_id).at
          (tick w (env.others w.events w.vars)));
  }

  poll_completion_once-Falls : (job_id : SlurmJobId) → Falls (poll_completion_once env hpc job_id)
  unfolding poll_completion_once flow_cancellation_guard
  poll_completion_once-Falls job_id = guard_in-Falls (truthy env.flow_run_id) job_id

-- The rounds that suffice from `waited` seconds of an outage on, at the given backoff.
enough : ℕ → ℕ → ℕ → Bool
enough zero waited backoff = false
enough (suc fuel) waited backoff =
    ltb 300 waited || enough fuel (waited + backoff) (next_backoff backoff)

-- The wait gave up on an outage, more than 300 seconds after the time `t`.
pub data GaveUp (env : Env) (t : ℕ) : Outcome Poll × World → Type 0 where
  gave_up :
      (e : Exc) (v : World)
      → is_outage e ≡ true
      → t + 300 * 1000000 < time env v
      → GaveUp env t (returns (some (err (op_error e))), v)

GaveUp-earlier :
    {env : Env} (t u : ℕ) (o : Outcome Poll × World) → t ≤ u → GaveUp env u o → GaveUp env t o
GaveUp-earlier t u o before (gave_up e v outage late) = gave_up e v outage (ground arith)

ltb_irrefl : (now : ℕ) → ltb (300 * 1000000) (now - now) ≡ false
ltb_irrefl now = ground arith

enough-more :
    (f g waited backoff : ℕ)
    → enough f waited backoff ≡ true
    → f ≤ g
    → enough g waited backoff ≡ true
unfolding enough
enough-more zero g waited backoff suffices less = cc
enough-more (suc f) zero waited backoff suffices less = ground arith
enough-more (suc f) (suc g) waited backoff suffices less =
    let more = enough-more f g (waited + backoff) (next_backoff backoff) in ground arith

enough_9 : enough 8 5 10 ≡ true
unfolding enough
enough_9 = refl

module _ (env : Env) (down : ApiDown env) (hpc : Text) (job_id : SlurmJobId)
    (forward : GoesForward env.clock) where
  -- What an outage of `waited` seconds leaves to prove of the rounds to come.
  Bears : ℕ → ℕ → ℕ → ℕ → Type 0
  Bears fuel waited backoff started =
      (w : World)
      → started + waited * 1000000 ≤ time env w
      → enough fuel waited backoff ≡ true
      → GaveUp env started (wait_loop env hpc job_id fuel (some started) backoff w)

  enough-next :
      (fuel waited backoff : ℕ)
      → enough (suc fuel) waited backoff ≡ true
      → waited ≤ 300
      → enough fuel (waited + backoff) (next_backoff backoff) ≡ true
  unfolding enough
  enough-next fuel waited backoff suffices early = ground arith

  round-GaveUp :
      (fuel waited backoff started : ℕ) (w : World)
      → Bears fuel (waited + backoff) (next_backoff backoff) started
      → started + waited * 1000000 ≤ time env w
      → enough (suc fuel) waited backoff ≡ true
      → (o : Outcome Poll × World) → Fallen w o
      → GaveUp env started (
          handle o
            (after_poll env hpc job_id (wait_loop env hpc job_id fuel))
            (after_raise env hpc job_id (wait_loop env hpc job_id fuel) (some started) backoff))
  unfolding after_raise bear_outage now_utc sleep Bears
  round-GaveUp fuel waited backoff started w bears since suffices _
        (fallen e v outage later slept) =
      let goes = forward w.events v.events later in
      let goes_1 = forward v.events (v.events + 1) (ground arith) in
      let goes_2 = forward v.events (v.events + 1 + 1) (ground arith) in
      rw outage (elim (Bool-cases (gives_up started (time env v))) [
        | inl h ↦ rw h (gave_up e _ outage (ground arith))
        | inr h ↦
            rw h (bears _ (ground arith) (enough-next fuel waited backoff suffices (ground arith)))
      ])

  wait_loop-GaveUp : (fuel waited backoff started : ℕ) → Bears fuel waited backoff started
  unfolding wait_loop Bears enough
  wait_loop-GaveUp zero waited backoff started w since suffices = cc
  wait_loop-GaveUp (suc fuel) waited backoff started w since suffices =
      round-GaveUp fuel waited backoff started w
        (wait_loop-GaveUp fuel (waited + backoff) (next_backoff backoff) started) since suffices _
        ((poll_completion_once-Falls env down hpc job_id).at w)

  first-GaveUp :
      (fuel : ℕ) (w : World)
      → enough fuel 5 10 ≡ true
      → (o : Outcome Poll × World) → Fallen w o
      → GaveUp env (time env w) (
          handle o
            (after_poll env hpc job_id (wait_loop env hpc job_id fuel))
            (after_raise env hpc job_id (wait_loop env hpc job_id fuel) none 5))
  unfolding after_raise bear_outage now_utc sleep Bears
  first-GaveUp fuel w suffices _ (fallen e v outage later slept) =
      let goes = forward w.events v.events later in
      let goes_2 = forward v.events (v.events + 1 + 1) (ground arith) in
      let now = time env v in
      let young = ltb_irrefl now in
      rw (outage, young)
        (GaveUp-earlier (time env w) now _ (ground arith)
          (wait_loop-GaveUp fuel 5 10 now _ (ground arith) suffices))

-- While every call of the API fails and the clock goes forward, the wait gives up: 9 rounds are
-- enough. It answers with the error of the outage, and more than 300 seconds after it began.
pub wait_completion_single-GaveUp :
    (env : Env) (hpc : Text) (job_id : SlurmJobId) (fuel : ℕ) (w : World)
    → ApiDown env
    → GoesForward env.clock
    → 9 ≤ fuel
    → GaveUp env (time env w) (wait_completion_single env hpc job_id fuel w)
unfolding wait_completion_single wait_loop
wait_completion_single-GaveUp env hpc job_id zero w down forward enough_fuel = ground arith
wait_completion_single-GaveUp env hpc job_id (suc fuel) w down forward enough_fuel =
    first-GaveUp env down hpc job_id forward fuel w
      (enough-more 8 fuel 5 10 enough_9 (ground arith)) _
      ((poll_completion_once-Falls env down hpc job_id).at w)

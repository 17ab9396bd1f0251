-- ===== src/Firecrest/View.antt =====
-- How often `_safe_view` asks for a file.
use hpc_relay.Base.{
  ℕ, suc, ◌+◌, ◌≤◌, ◌≡◌, refl, ◌∙◌, Bool, true, false, List, [], ◌∷◌, ◌++◌, if◌then◌else◌, arith,
  Bool-cases, inl, inr,
}
use hpc_relay.Exec.Keeps.{Keeps, Keeps-bind, Keeps-then}
use hpc_relay.Exec.{Outcome, returns, raises, Exec, pure, raise, ◌>>=◌, ◌>>◌, handle, and_then}
use hpc_relay.Firecrest.Runner.{current_client, renew, view_again, safe_view}
use hpc_relay.Firecrest.{Call, view, close_session, create_new_session, Api, State, asks}
use hpc_relay.Result.{Exc}
use hpc_relay.Text.{Text}

abbrev pub is_view : Call → Bool
is_view (view client path) = true
is_view _ = false

-- The views of a log.
unfoldable pub views : List Call → ℕ
views [] = 0
views (call ∷ log) = let n = views log in if is_view call then suc n else n

views-append_one :
    (log : List Call) (k : Call)
    → views (log ++ k ∷ []) ≡ (if is_view k then suc (views log) else views log)
unfolding views
views-append_one [] k = refl
views-append_one (x ∷ log) k = ground (arith, views-append_one log k)

record Made (n : ℕ) (s : State) : Type 0 where
  made : views s.log ≡ n

-- How a reading that began after `n` views ends: with a text after one or two views; or, after exactly
-- two, with an exception that is no `FirecrestException`.
pub data ViewEnd (is_firecrest : Exc → Bool) (n : ℕ) : Outcome Text × State → Type 0 where
  read :
      (content : Text) (s : State)
      → n + 1 ≤ views s.log
      → views s.log ≤ n + 2
      → ViewEnd is_firecrest n (returns content, s)
  failed :
      (e : Exc) (s : State)
      → views s.log ≡ n + 2
      → is_firecrest e ≡ false
      → ViewEnd is_firecrest n (raises e, s)

module _ (api : Api) (is_firecrest : Exc → Bool) where
  asks-Keeps :
      {A : Type 0} {n : ℕ} (answer : List Call → Outcome A) (k : Call)
      → is_view k ≡ false
      → Keeps (Made n) (asks answer k)
  asks-Keeps answer k e = record {
    at = λ s h. record { made = views-append_one s.log k ∙ rw e (h.made) };
  }

  current-Keeps : {n : ℕ} → Keeps (Made n) current_client
  current-Keeps = record { at = λ s h. h }

  abbrev renewal : Exec State Bool
  renewal = do
    client ← current_client
    asks api.flag (close_session client)
    asks api.flag (create_new_session client)

  renewal-Keeps : {n : ℕ} → Keeps (Made n) renewal
  renewal-Keeps = search (Keeps-bind, Keeps-then, current-Keeps, asks-Keeps)

  -- A renewal always returns, and makes no view.
  after_renew :
      {n : ℕ} (m : Exec State Text) (s : State) (P : Outcome Text × State → Type 0)
      → Made n s
      → ((t : State) → Made n t → P (m t))
      → P ((renew api >> m) s)
  unfolding renew
  after_renew {n} m s P h goes_on = go (renewal s) (renewal-Keeps.at s h)
    where
      go :
          (o : Outcome Bool × State)
          → Made n o.1
          → P (and_then (handle o (λ _. pure tt) (λ _. pure tt)) (λ _. m))
      go (returns u, t) k = goes_on t k
      go (raises e, t) k = goes_on t k

  again-ViewEnd :
      {n : ℕ} (path : Text) (s : State)
      → Made (n + 1) s
      → ViewEnd is_firecrest n (view_again api is_firecrest path s)
  unfolding view_again
  again-ViewEnd {n} path s h = go (api.content _) _ seen
    where
      t : State
      t = record s { log = s.log ++ view s.client path ∷ [] }

      seen : views t.log ≡ n + 2
      seen = ground (arith, views-append_one s.log (view s.client path), h.made)

      go :
          (o : Outcome Text) (u : State)
          → views u.log ≡ n + 2
          → ViewEnd is_firecrest n
              (handle (o, u) pure (λ e. if is_firecrest e then pure [] else (renew api >> raise e)))
      go (returns a) u e = read a u (omega arith) (omega arith)
      go (raises x) u e = elim (Bool-cases (is_firecrest x)) [
        | inl y ↦ rw y (read [] u (omega arith) (omega arith))
        | inr z ↦ rw z (
            after_renew (raise x) u (ViewEnd is_firecrest n) (record { made = e })
              (λ t k. failed x t k.made z))
      ]

  -- `_safe_view` returns a text after one or two requests for the file, or raises after exactly two, and
  -- then an exception that is no `FirecrestException`.
  pub safe_view-ViewEnd :
      (path : Text) (s : State)
      → ViewEnd is_firecrest (views s.log) (safe_view api is_firecrest path s)
  unfolding safe_view
  safe_view-ViewEnd path s = go (api.content _) _ seen
    where
      n : ℕ
      n = views s.log

      t : State
      t = record s { log = s.log ++ view s.client path ∷ [] }

      seen : views t.log ≡ n + 1
      seen = ground (arith, views-append_one s.log (view s.client path))

      go :
          (o : Outcome Text) (u : State)
          → views u.log ≡ n + 1
          → ViewEnd is_firecrest n (
              handle
                (o, u)
                pure
                (λ e.
                  if is_firecrest e
                  then pure []
                  else (renew api >> view_again api is_firecrest path)))
      go (returns a) u e = read a u (omega arith) (omega arith)
      go (raises x) u e = elim (Bool-cases (is_firecrest x)) [
        | inl y ↦ rw y (read [] u (omega arith) (omega arith))
        | inr z ↦ rw z (
            after_renew (view_again api is_firecrest path) u (ViewEnd is_firecrest n)
              (record { made = e }) (again-ViewEnd path))
      ]

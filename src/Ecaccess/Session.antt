-- ===== src/Ecaccess/Session.antt =====
-- The operations of the client in a session: each exchanges the certificate once at most, and holds a
-- token where it returns.
use hpc_relay.Base.{
  ℕ, ◌≤◌, ◌≡◌, refl, ◌⊎◌, inl, inr, true, false, List, [], ◌∷◌, ◌++◌, Option, none, some,
  if◌then◌else◌, arith, Bool-cases,
}
use hpc_relay.Ecaccess.Client.{
  Call, exists, read_bytes, Gateway, State, EcaccessClient, is_filled, recorded, asks, set_token,
  call, read_reply, log_in, token_or_log_in, authenticate, delete_job, restart_job,
}
use hpc_relay.Ecaccess.Envelope.{Param}
use hpc_relay.Ecaccess.Jobs.{list_operations, list_queues, list_jobs}
use hpc_relay.Ecaccess.Token.{
  is_login, logins, holds, logins-append_one, Held, Within, Start, Stable, Held-Stable,
  Within-Stable, asks-Does, lift-Does, bind-Does, then-Does, if-Does, pure-Does, read_reply-Does,
  call-Does,
}
use hpc_relay.Ecaccess.Xml.{return_text}
use hpc_relay.Exec.Triple.{Ends, fine, broke, Does, Does-bind, Does-if, Does-raise}
use hpc_relay.Exec.{Outcome, Exec, pure, raise, ◌>>=◌, ◌>>◌}
use hpc_relay.FilePath.{to_text}
use hpc_relay.Ecaccess.Encode.{b64encode}
use hpc_relay.Result.{Exc, runtime_error, file_not_found, empty_token}
use hpc_relay.Text.{Text, codes, same}

-- No exchange yet.
record Fresh (n : ℕ) (s : State) : Type 0 where
  none_yet : logins s.log ≤ n

Fresh-Stable : {n : ℕ} → Stable (Within n) (Fresh n)
unfolding logins
Fresh-Stable = record {
  weak = λ s h. record { once = omega (arith, h.none_yet) };
  step =
      λ s call other h. record { none_yet = rw (logins-append_one s.log call, other) h.none_yet };
}

module _ (g : Gateway) (c : EcaccessClient) {n : ℕ} where
  exchanged :
      {A : Type 0} (answer : List Call → Outcome A) (call : Call)
      → Does (Fresh n) (Within n) (Within n) (asks answer call)
  unfolding logins
  exchanged answer call = record {
    at = λ s h.
        (lift-Does Within-Stable (answer (s.log ++ call ∷ []))).at (recorded s call)
          (record { once = ground (arith, logins-append_one s.log call, h.none_yet) });
  }

  exchange-Does :
      (method : Text) (params : List Param)
      → Does (Fresh n) (Within n) (Within n) (call g c method params)
  unfolding call
  exchange-Does method params =
      Does-bind (asks g.response _) (read_reply g c method) (exchanged g.response _)
        (read_reply-Does Within-Stable g c method)

  -- The new token is kept, unless it is empty.
  keep_token :
      (t : Text) (e : Exc)
      → Does
          (Within n)
          (Held n)
          (Within n)
          (set_token (some t) >> (if is_filled t then pure t else raise e))
  unfolding holds
  keep_token t e = record { at = λ s h. go s h (Bool-cases (is_filled t)) }
    where
      go :
          (s : State)
          → Within n s
          → (is_filled t ≡ true) ⊎ (is_filled t ≡ false)
          → Ends
              (Held n)
              (Within n)
              ((if is_filled t then pure t else raise e) (record s { token = some t }))
      go s h (inl y) = rw y (fine t _ (record { holding = y; once = h.once }))
      go s h (inr z) = rw z (broke e _ (record { once = h.once }))

  log_in-Does : Does (Fresh n) (Held n) (Within n) (log_in g c)
  unfolding log_in is_login
  log_in-Does =
      Does-bind (asks g.flag (exists c.cert_path)) _ (asks-Does Fresh-Stable g.flag _ refl)
        (λ found.
          Does-if found _ _
            (Does-bind (asks g.bytes (read_bytes c.cert_path)) _
              (asks-Does Fresh-Stable g.bytes _ refl)
              (λ raw.
                let params : List Param = (codes "certificate", b64encode raw, none) ∷ [] in
                Does-bind (call g c (codes "getTokenFromCertificate") params) _
                  (exchange-Does _ params)
                  (λ resp. keep_token (return_text resp) (runtime_error empty_token))))
            (Does-raise (file_not_found (to_text c.cert_path)) (Fresh-Stable).weak))

  -- Without a token there was no exchange yet.
  Start-Fresh : (s : State) → holds s.token ≡ false → Start n s → Fresh n s
  Start-Fresh s e h = record { none_yet = elim h.held_or_fresh [ inl y ↦ cc | inr l ↦ l ] }

  token_or_log_in-Ends :
      (held : Option Text) (s : State)
      → s.token ≡ held
      → Start n s
      → Ends (Held n) (Within n) (token_or_log_in g c held s)
  unfolding token_or_log_in holds
  token_or_log_in-Ends none s e h = log_in-Does.at s (Start-Fresh s (rw e refl) h)
  token_or_log_in-Ends (some t) s e h = elim (Bool-cases (is_filled t)) [
    | inl y ↦ rw y (fine t s (record { holding = rw e y; once = h.once }))
    | inr z ↦ rw z (log_in-Does.at s (Start-Fresh s (rw e z) h))
  ]

  pub authenticate-Does : Does (Start n) (Held n) (Within n) (authenticate g c)
  unfolding authenticate
  authenticate-Does = record { at = λ s h. token_or_log_in-Ends s.token s refl h }

  -- An operation that authenticates first.
  pub with_token :
      {A : Type 0} (m : Text → Exec State A)
      → ((t : Text) → Does (Held n) (Held n) (Within n) (m t))
      → Does (Start n) (Held n) (Within n) (authenticate g c >>= m)
  with_token m d = Does-bind (authenticate g c) m authenticate-Does d

  pub call-Held :
      (method : Text) (params : List Param)
      → same method (codes "getTokenFromCertificate") ≡ false
      → Does (Held n) (Held n) (Within n) (call g c method params)
  call-Held method params other = call-Does Held-Stable g c method params other

  pub list_jobs-Does :
      (job_id : Option Text) → Does (Start n) (Held n) (Within n) (list_jobs g c job_id)
  unfolding list_jobs same
  list_jobs-Does job_id =
      with_token _
        (λ t. search (if-Does Held-Stable, bind-Does Held-Stable, pure-Does Held-Stable, call-Held))

  pub list_queues-Does :
      (detail : Option Text) → Does (Start n) (Held n) (Within n) (list_queues g c detail)
  unfolding list_queues same
  list_queues-Does detail =
      with_token _
        (λ t. search (if-Does Held-Stable, bind-Does Held-Stable, pure-Does Held-Stable, call-Held))

  pub list_operations-Does : Does (Start n) (Held n) (Within n) (list_operations g c)
  unfolding list_operations same
  list_operations-Does =
      with_token _ (λ t. search (bind-Does Held-Stable, pure-Does Held-Stable, call-Held))

  pub delete_job-Does : (job_id : Text) → Does (Start n) (Held n) (Within n) (delete_job g c job_id)
  unfolding delete_job same
  delete_job-Does job_id =
      with_token _ (λ t. search (then-Does Held-Stable, pure-Does Held-Stable, call-Held))

  pub restart_job-Does :
      (job_id : Text) → Does (Start n) (Held n) (Within n) (restart_job g c job_id)
  unfolding restart_job same
  restart_job-Does job_id =
      with_token _ (λ t. search (then-Does Held-Stable, pure-Does Held-Stable, call-Held))

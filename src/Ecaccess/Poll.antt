-- ===== src/Ecaccess/Poll.antt =====
-- That `_wait_for_terminal` returns once the gateway reports a terminal status, and how often it asked.
use hpc_relay.Base.{
  ℕ, zero, suc, ◌<◌, ◌≡◌, refl, ◌∙◌, Bool, true, false, List, [], ◌∷◌, ◌++◌, Option, none, some,
  arith, append_assoc,
}
use hpc_relay.Ecaccess.Client.{
  Call, post, sleep, Response, Gateway, State, EcaccessClient, is_filled, recorded, judge_reply,
  lift, call, read_reply, token_or_log_in, authenticate, ctrl_url,
}
use hpc_relay.Ecaccess.Envelope.{Param, soap_envelope}
use hpc_relay.Ecaccess.Jobs.{JobRow, or_text, first_row, list_jobs}
use hpc_relay.Ecaccess.Runner.{
  status_in, is_terminal, poll_interval, look, poll_once, wait_for_terminal,
}
use hpc_relay.Ecaccess.Xml.{Element, get_returns}
use hpc_relay.Exec.{Outcome, returns, raises, pure, and_then}
use hpc_relay.Text.{Text, codes}

module _ (g : Gateway) (c : EcaccessClient) (token job_id : Text) where
  abbrev params : List Param
  params = (codes "token", token, none) ∷ (codes "jobid", job_id, none) ∷ []

  -- The request for the job.
  abbrev pub get_job : Call
  get_job = post (ctrl_url g c) (codes "getJob") (soap_envelope (codes "getJob") params)

  read_element : Response → Outcome Element → Outcome (List JobRow)
  read_element resp (raises e) = raises e
  read_element resp (returns root) = elim (judge_reply (codes "getJob") resp.status_code root) [
    | raises e ↦ raises e
    | returns element ↦ returns (first_row (get_returns element))
  ]

  -- What a reply shows of the job.
  rows_in : Outcome Response → Outcome (List JobRow)
  unfolding read_element
  rows_in (raises e) = raises e
  rows_in (returns resp) = read_element resp (g.from_string resp.content)

  -- The rows that `list_jobs` returns where these are the calls.
  unfoldable pub shows : List Call → Outcome (List JobRow)
  unfolding rows_in
  shows log = rows_in (g.response log)

  authenticate_held :
      (s : State)
      → s.token ≡ some token
      → is_filled token ≡ true
      → authenticate g c s ≡ (returns token, s)
  unfolding authenticate token_or_log_in
  authenticate_held s held full = go s.token held
    where
      go : (t : Option Text) → t ≡ some token → token_or_log_in g c t s ≡ (returns token, s)
      go t e = rw e (rw full refl)

  read-rows_in :
      (o : Outcome Response) (t : State)
      → and_then
          (and_then (o, t) (read_reply g c (codes "getJob")))
          (λ element. pure (first_row (get_returns element)))
        ≡ (rows_in o, t)
  unfolding read_reply rows_in
  read-rows_in (raises e) t = refl
  read-rows_in (returns resp) t = parsed (g.from_string resp.content)
    where
      judged :
          (o : Outcome Element)
          → and_then (o, t) (λ element. pure (first_row (get_returns element))) ≡ (
            elim o [
              | raises e ↦ raises e
              | returns element ↦ returns (first_row (get_returns element))
            ],
            t,
          )
      judged (returns element) = refl
      judged (raises e) = refl

      parsed :
          (o : Outcome Element)
          → and_then
              (and_then (o, t) (λ root. lift (judge_reply (codes "getJob") resp.status_code root)))
              (λ element. pure (first_row (get_returns element)))
            ≡ (read_element resp o, t)
      parsed (returns root) = judged (judge_reply (codes "getJob") resp.status_code root)
      parsed (raises e) = refl

  or_text-some : (t : Text) → or_text (some t) [] ≡ t
  unfolding or_text
  or_text-some [] = refl
  or_text-some (x ∷ t) = refl

  -- With a token held, a listing is one request.
  list_jobs_held :
      (s : State)
      → s.token ≡ some token
      → is_filled token ≡ true
      → is_filled job_id ≡ true
      → list_jobs g c (some job_id) s ≡ (shows (s.log ++ get_job ∷ []), recorded s get_job)
  unfolding list_jobs call shows
  list_jobs_held s held full named =
      rw (authenticate_held s held full, or_text-some job_id, named) (read-rows_in _ _)

  -- From these calls on, the gateway reports that the job runs, `k` times, and then that it ended.
  pub data Settles (status : Text) : ℕ → List Call → Type 0 where
    ended :
        (log : List Call) (row : JobRow) (rows : List JobRow)
        → shows (log ++ get_job ∷ []) ≡ returns (row ∷ rows)
        → status_in row.fields ≡ status
        → is_terminal status ≡ true
        → Settles status zero log
    runs :
        (k : ℕ) (log : List Call) (row : JobRow) (rows : List JobRow) (slept : Bool)
        → shows (log ++ get_job ∷ []) ≡ returns (row ∷ rows)
        → is_terminal (status_in row.fields) ≡ false
        → g.flag (log ++ get_job ∷ sleep poll_interval ∷ []) ≡ returns slept
        → Settles status k (log ++ get_job ∷ sleep poll_interval ∷ [])
        → Settles status (suc k) log

  -- The calls of `k` rounds that find the job running.
  pub polls : ℕ → List Call
  polls zero = []
  polls (suc k) = get_job ∷ sleep poll_interval ∷ polls k

  -- The state after more calls.
  abbrev after : State → List Call → State
  after s calls = record s { log = s.log ++ calls }

  module _ (full : is_filled token ≡ true) (named : is_filled job_id ≡ true) where
    poll_ended :
        (s : State) (row : JobRow) (rows : List JobRow)
        → s.token ≡ some token
        → shows (s.log ++ get_job ∷ []) ≡ returns (row ∷ rows)
        → is_terminal (status_in row.fields) ≡ true
        → poll_once g c job_id s ≡ (returns (some (status_in row.fields)), recorded s get_job)
    unfolding poll_once look
    poll_ended s row rows held e end = rw (list_jobs_held s held full named, e, end) refl

    poll_running :
        (s : State) (row : JobRow) (rows : List JobRow) (slept : Bool)
        → s.token ≡ some token
        → shows (s.log ++ get_job ∷ []) ≡ returns (row ∷ rows)
        → is_terminal (status_in row.fields) ≡ false
        → g.flag (s.log ++ get_job ∷ sleep poll_interval ∷ []) ≡ returns slept
        → poll_once g c job_id s ≡ (returns none, after s (get_job ∷ sleep poll_interval ∷ []))
    unfolding poll_once look
    poll_running s row rows slept held e running sleeps =
        rw (list_jobs_held s held full named, e, running)
          (rw (append_assoc s.log (get_job ∷ []) (sleep poll_interval ∷ []), sleeps) refl)

    -- Where the gateway reports `k` times that the job runs and then a terminal status, that status is
    -- returned after exactly `k` sleeps and `k + 1` requests, and more rounds change nothing.
    pub wait_for_terminal-Settles :
        (rounds k : ℕ) (status : Text) (log : List Call) (s : State)
        → s.token ≡ some token
        → s.log ≡ log
        → k < rounds
        → Settles status k log
        → wait_for_terminal g c rounds job_id s
          ≡ (returns (some status), after s (polls k ++ get_job ∷ []))
    unfolding wait_for_terminal polls
    wait_for_terminal-Settles zero k status log s held at low h = absurd (omega arith)
    wait_for_terminal-Settles (suc rounds) _ status _ s held at low (ended log row rows e is end) =
        rw (poll_ended s row rows held (rw at e) (rw is end), is) refl
    wait_for_terminal-Settles (suc rounds) _ status _ s held at low
          (runs j log row rows slept e running sleeps later) =
        rw (poll_running s row rows slept held (rw at e) running (rw at sleeps)) (
          wait_for_terminal-Settles rounds j status _ _ held (rw at refl) (omega arith) later
          ∙ rw append_assoc refl)

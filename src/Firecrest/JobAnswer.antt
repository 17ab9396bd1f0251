-- ===== src/Firecrest/JobAnswer.antt =====
-- Where the answer of `_run` of the FirecREST runner comes from: the submission of the job, the wait for
-- it, and the files that it has left.
use hpc_relay.Base.{◌≡◌, refl, Bool, true, List, [], ◌∷◌, ◌++◌, if◌then◌else◌, Bool-cases, inl, inr}
use hpc_relay.Exec.{Outcome, returns, raises, Exec, pure, raise, ◌>>◌, handle, and_then}
use hpc_relay.Firecrest.Answers.{Json, Fields, extract_job_id}
use hpc_relay.Firecrest.Runner.{
  return_code_of, build_sbatch_script, renew, view_again, safe_view, read_back, await_job,
  get_scratch_dir, run_job,
}
use hpc_relay.Firecrest.{
  Client, Call, Submission, new_run_id, submit, wait_for_job, view, Api, State, asks,
}
use hpc_relay.Result.{Exc, runtime_error, no_job_id, op_error, Result, ok, err}
use hpc_relay.Runner.Context.{CscsFirecrestContext}
use hpc_relay.Runner.Types.{Command, CommandResult}
use hpc_relay.Text.{Text, codes}
use hpc_relay.Text.Chars.{is_space}
use hpc_relay.Text.Split.{strip}

-- What is returned is as `P` says, if anything is.
pub data Gives {A : Type 0} (P : A → Type 0) : Outcome A × State → Type 0 where
  gave : (a : A) (s : State) → P a → Gives P (returns a, s)
  threw : (e : Exc) (s : State) → Gives P (raises e, s)

Gives-then :
    {A B : Type 0} {Q : A → Type 0} {P : B → Type 0} (o : Outcome A × State) (f : A → Exec State B)
    → Gives Q o
    → ((a : A) (s : State) → Q a → Gives P (f a s))
    → Gives P (and_then o f)
Gives-then _ f (gave a s q) goes_on = goes_on a s q
Gives-then _ f (threw e s) goes_on = threw e s

Gives-weaken :
    {A : Type 0} {Q P : A → Type 0} (o : Outcome A × State)
    → Gives Q o
    → ((a : A) → Q a → P a)
    → Gives P o
Gives-weaken _ (gave a s q) weaker = gave a s (weaker a q)
Gives-weaken _ (threw e s) weaker = threw e s

-- Whatever a step does before the next one.
Gives-after :
    {A B : Type 0} {P : B → Type 0} (o : Outcome A × State) (f : A → Exec State B)
    → ((a : A) (s : State) → Gives P (f a s))
    → Gives P (and_then o f)
Gives-after (returns a, s) f goes_on = goes_on a s
Gives-after (raises e, s) f goes_on = threw e s

-- A request, with its answer.
Gives-asks :
    {A B : Type 0} {P : B → Type 0} (answer : List Call → Outcome A) (call : Call)
    (f : A → Exec State B) (s : State)
    → ((a : A)
        → answer (s.log ++ call ∷ []) ≡ returns a
        → Gives P (f a (record s { log = s.log ++ call ∷ [] })))
    → Gives P (and_then (asks answer call s) f)
Gives-asks {A} {P = P} answer call f s goes_on = go (answer (s.log ++ call ∷ [])) refl
  where
    go :
        (o : Outcome A)
        → answer (s.log ++ call ∷ []) ≡ o
        → Gives P (and_then (o, record s { log = s.log ++ call ∷ [] }) f)
    go (returns a) e = goes_on a e
    go (raises x) e = threw x (record s { log = s.log ++ call ∷ [] })

module _ (api : Api) (is_firecrest : Exc → Bool) where
  -- What was read of the file `path`: what a view of it gave, or nothing where FirecREST refused one.
  pub data Seen (path : Text) : Text → Type 0 where
    shown :
        (content : Text) (log : List Call) (client : Client)
        → api.content (log ++ view client path ∷ []) ≡ returns content
        → Seen path content
    refused :
        (e : Exc) (log : List Call) (client : Client)
        → api.content (log ++ view client path ∷ []) ≡ raises e
        → is_firecrest e ≡ true
        → Seen path []

  view_again-Seen :
      (path : Text) (s : State) → Gives (Seen path) (view_again api is_firecrest path s)
  unfolding view_again
  view_again-Seen path s = go (api.content (s.log ++ view s.client path ∷ [])) refl
    where
      t : State
      t = record s { log = s.log ++ view s.client path ∷ [] }

      go :
          (o : Outcome Text)
          → api.content (s.log ++ view s.client path ∷ []) ≡ o
          → Gives
              (Seen path)
              (handle (o, t) pure (λ e. if is_firecrest e then pure [] else (renew api >> raise e)))
      go (returns a) e = gave a t (shown a s.log s.client e)
      go (raises x) e = elim (Bool-cases (is_firecrest x)) [
        | inl y ↦ rw y (gave [] t (refused x s.log s.client e y))
        | inr z ↦ rw z (Gives-after (renew api t) (λ _. raise x) (λ _ u. threw x u))
      ]

  safe_view-Seen : (path : Text) (s : State) → Gives (Seen path) (safe_view api is_firecrest path s)
  unfolding safe_view
  safe_view-Seen path s = go (api.content (s.log ++ view s.client path ∷ [])) refl
    where
      t : State
      t = record s { log = s.log ++ view s.client path ∷ [] }

      go :
          (o : Outcome Text)
          → api.content (s.log ++ view s.client path ∷ []) ≡ o
          → Gives (Seen path) (
              handle
                (o, t)
                pure
                (λ e.
                  if is_firecrest e
                  then pure []
                  else (renew api >> view_again api is_firecrest path)))
      go (returns a) e = gave a t (shown a s.log s.client e)
      go (raises x) e = elim (Bool-cases (is_firecrest x)) [
        | inl y ↦ rw y (gave [] t (refused x s.log s.client e y))
        | inr z ↦ rw z (
            Gives-after (renew api t) (λ _. view_again api is_firecrest path)
              (λ _ u. view_again-Seen path u))
      ]

  -- A result made of three files.
  pub data FromFiles (out err_file rc : Text) : Result CommandResult → Type 0 where
    from_files :
        (res : CommandResult) (shown_code : Text)
        → Seen out res.stdout
        → Seen err_file res.stderr
        → Seen rc shown_code
        → res.return_code ≡ return_code_of (strip is_space shown_code)
        → FromFiles out err_file rc (ok res)

  read_back-FromFiles :
      (out err_file rc : Text) (s : State)
      → Gives (FromFiles out err_file rc) (read_back api is_firecrest out err_file rc s)
  unfolding read_back
  read_back-FromFiles out err_file rc s =
      Gives-then (safe_view api is_firecrest out s) _ (safe_view-Seen out s) (λ a t x.
        Gives-then (safe_view api is_firecrest err_file t) _ (safe_view-Seen err_file t) (λ b u y.
          Gives-then (safe_view api is_firecrest rc u) _ (safe_view-Seen rc u)
            (λ c v z. gave _ v (from_files _ c x y z refl))))

  module _ (py_str : Json → Text) (ctx : CscsFirecrestContext) (cmd : Command) where
    -- The file of a run in the scratch directory.
    abbrev file_of : Text → Text → Text → Text
    file_of scratch run_id suffix = scratch ++ (codes "/firecrest-" ++ (run_id ++ suffix))

    -- The submission of the command, whose script writes to these files.
    pub record IsJob (out err_file rc : Text) (sub : Submission) : Type 0 where
      script : sub.script_str ≡ build_sbatch_script cmd out err_file rc ctx.partition ctx.wall_time
      env : sub.env_vars ≡ cmd.env_vars
      account : sub.account ≡ ctx.account

    -- What is returned: for a submission without an id, its error; for one with an id, what the files of
    -- the job held behind the wait for that id.
    pub data Answer : Result CommandResult → Type 0 where
      no_id :
          (log : List Call) (client : Client) (sub : Submission) (resp : Fields)
          → api.submitted (log ++ submit client sub ∷ []) ≡ returns resp
          → extract_job_id py_str resp ≡ []
          → Answer (err (op_error (runtime_error no_job_id)))
      finished :
          (log : List Call) (client : Client) (sub : Submission) (resp : Fields) (awaited : Bool)
          (scratch run_id : Text) (r : Result CommandResult)
          → IsJob
              (file_of scratch run_id (codes ".out"))
              (file_of scratch run_id (codes ".err"))
              (file_of scratch run_id (codes ".rc"))
              sub
          → api.submitted (log ++ submit client sub ∷ []) ≡ returns resp
          → api.flag (
              (log ++ submit client sub ∷ [])
              ++ wait_for_job client (extract_job_id py_str resp) ∷ [])
            ≡ returns awaited
          → FromFiles
              (file_of scratch run_id (codes ".out"))
              (file_of scratch run_id (codes ".err"))
              (file_of scratch run_id (codes ".rc"))
              r
          → Answer r

    await_job-Answer :
        (s : State) (sub : Submission) (resp : Fields) (scratch run_id job_id : Text)
        → IsJob
            (file_of scratch run_id (codes ".out"))
            (file_of scratch run_id (codes ".err"))
            (file_of scratch run_id (codes ".rc"))
            sub
        → api.submitted (s.log ++ submit s.client sub ∷ []) ≡ returns resp
        → extract_job_id py_str resp ≡ job_id
        → Gives Answer (
            await_job api is_firecrest job_id
              (file_of scratch run_id (codes ".out"))
              (file_of scratch run_id (codes ".err"))
              (file_of scratch run_id (codes ".rc"))
              (record s { log = s.log ++ submit s.client sub ∷ [] }))
    unfolding await_job
    await_job-Answer s sub resp scratch run_id [] j e i =
        gave _ _ (no_id s.log s.client sub resp e i)
    await_job-Answer s sub resp scratch run_id (c ∷ id) j e i =
        Gives-asks api.flag (wait_for_job s.client (c ∷ id)) _
          (record s { log = s.log ++ submit s.client sub ∷ [] })
          (λ b w.
            Gives-weaken _ (read_back-FromFiles _ _ _ _)
              (λ r. finished s.log s.client sub resp b scratch run_id r j e (rw i w)))

    pub run_job-Answer : (s : State) → Gives Answer (run_job api is_firecrest py_str ctx cmd s)
    unfolding run_job
    run_job-Answer s = Gives-after (get_scratch_dir api ctx s) _ (λ scratch t.
        Gives-asks api.content new_run_id _ t (λ run_id _.
          Gives-asks api.submitted (submit t.client _) _ _ (λ resp e.
            await_job-Answer _ _ resp scratch run_id (extract_job_id py_str resp)
              (record { script = refl; env = refl; account = refl }) e refl)))

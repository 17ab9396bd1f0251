-- ===== src/Runner/Ssh/Session.antt =====
-- The order of the calls of an SSH session, and that it is closed.
use hpc_relay.Base.{
  ℕ, ◌≤◌, ◌≡◌, refl, ap, ◌∙◌, Bool, true, false, List, [], ◌∷◌, ◌++◌, Option, none, some,
  append_assoc, arith, take, if◌then◌else◌,
}
use hpc_relay.Exec.{Outcome, returns, raises, Exec, pure, ◌>>=◌, and_then, handle}
use hpc_relay.Result.{Exc, file_not_found, op_error, Result, ok, err}
use hpc_relay.FilePath.{to_path, to_text}
use hpc_relay.Runner.Context.{GenericContext}
use hpc_relay.Runner.Remote.{build_remote_command}
use hpc_relay.Runner.Ssh.{
  Target, Call, connect, exec_command, read_stdout, read_stderr, exit_status, close, Remote, asks,
  finished, talk, session, load_private_key, target_of, run_with_key, run_in, run_generic,
}
use hpc_relay.Runner.Types.{Command, CommandResult}
use hpc_relay.Text.{Text}

-- The calls of a session that nothing breaks, before it is closed.
abbrev pub conversation : Target → Text → List Call
conversation target line =
    connect target ∷ exec_command line ∷ read_stdout ∷ read_stderr ∷ exit_status ∷ []

data TalkEnd (target : Target) (line : Text) (log : List Call)
    : Outcome CommandResult × List Call → Type 0 where
  says :
      (r : CommandResult) (l : List Call)
      → l ≡ log ++ conversation target line
      → TalkEnd target line log (returns r, l)
  stops :
      (k : ℕ) (e : Exc) (l : List Call)
      → 1 ≤ k
      → k ≤ 5
      → l ≡ log ++ take k (conversation target line)
      → TalkEnd target line log (raises e, l)

-- An end of a session that began with the calls `log`.
pub data SessionEnd (target : Target) (line : Text) (log : List Call)
    : Outcome CommandResult × List Call → Type 0 where
  answered :
      (r : CommandResult) (l : List Call)
      → l ≡ log ++ (conversation target line ++ close ∷ [])
      → SessionEnd target line log (returns r, l)
  broken :
      (k : ℕ) (e : Exc) (l : List Call)
      → 1 ≤ k
      → k ≤ 5
      → l ≡ log ++ (take k (conversation target line) ++ close ∷ [])
      → SessionEnd target line log (raises e, l)

module _ (remote : Remote) (target : Target) (line : Text) (log : List Call) where
  step :
      {A : Type 0} (k : ℕ) (o : Outcome A) (l : List Call) (f : A → Exec (List Call) CommandResult)
      → 1 ≤ k
      → k ≤ 5
      → l ≡ log ++ take k (conversation target line)
      → ((a : A) → TalkEnd target line log (f a l))
      → TalkEnd target line log (and_then (o, l) f)
  step k (returns a) l f low high e goes_on = goes_on a
  step k (raises x) l f low high e goes_on = stops k x l low high e

  talk-TalkEnd : TalkEnd target line log (talk remote target line log)
  unfolding talk
  talk-TalkEnd = step 1 (remote.text _) _ _ (ground arith) (ground arith) refl (λ _.
      step 2 (remote.text _) _ _ (ground arith) (ground arith) (simp append_assoc) (λ _.
        step 3 (remote.text _) _ _ (ground arith) (ground arith) (simp append_assoc) (λ _.
          step 4 (remote.text _) _ _ (ground arith) (ground arith) (simp append_assoc) (λ _.
            step 5 (remote.status _) _ _ (ground arith) (ground arith) (simp append_assoc)
              (λ code. says _ _ (simp append_assoc))))))

  -- A session makes one connection and runs one line; it reads the whole output before it waits for the
  -- exit status; and its last call closes the connection, whatever fails and at whatever call. It
  -- answers only behind the exit status.
  pub session-SessionEnd : SessionEnd target line log (session remote target line log)
  unfolding session
  session-SessionEnd = closed (talk remote target line log) talk-TalkEnd
    where
      closed :
          (o : Outcome CommandResult × List Call)
          → TalkEnd target line log o
          → SessionEnd target line log (finished o.0 (asks remote.text close o.1))
      closed _ (says r l e) = go (remote.text (l ++ close ∷ []))
        where
          go :
              (c : Outcome Text)
              → SessionEnd target line log (finished (returns r) (c, l ++ close ∷ []))
          go (returns t) = answered r _ (ap (λ m. m ++ close ∷ []) e ∙ simp append_assoc)
          go (raises x) =
              broken 5 x _ (ground arith) (ground arith)
                (ap (λ m. m ++ close ∷ []) e ∙ simp append_assoc)
      closed _ (stops k x l low high e) = go (remote.text (l ++ close ∷ []))
        where
          go :
              (c : Outcome Text)
              → SessionEnd target line log (finished (raises x) (c, l ++ close ∷ []))
          go (returns t) = broken k x _ low high (ap (λ m. m ++ close ∷ []) e ∙ simp append_assoc)
          go (raises y) = broken k y _ low high (ap (λ m. m ++ close ∷ []) e ∙ simp append_assoc)

-- A run of `GenericSshCommandRunner`: a result comes from a session on the command's line.
pub data RunEnd (ctx : GenericContext) (line : Text)
    : Outcome (Result CommandResult) × List Call → Type 0 where
  from_session :
      (pkey : Option Text) (before : List Call) (r : CommandResult) (l : List Call)
      → SessionEnd (target_of ctx pkey) line before (returns r, l)
      → RunEnd ctx line (returns (ok r), l)
  failed : (e : Exc) (l : List Call) → RunEnd ctx line (returns (err (op_error e)), l)

module _ (remote : Remote) (ctx : GenericContext) (line : Text) where
  -- With the handler of `run` behind it.
  Handled : Outcome (Result CommandResult) × List Call → Type 0
  Handled o = RunEnd ctx line (handle o pure (λ e. pure (err (op_error e))))

  Handled-bind :
      {A : Type 0} (o : Outcome A × List Call) (f : A → Exec (List Call) (Result CommandResult))
      → ((a : A) (l : List Call) → Handled (f a l))
      → Handled (and_then o f)
  unfolding Handled
  Handled-bind (returns a, l) f goes_on = goes_on a l
  Handled-bind (raises e, l) f goes_on = failed e l

  run_with_key-Handled :
      (pkey : Option Text) (log : List Call) → Handled (run_with_key remote ctx line pkey log)
  unfolding run_with_key Handled
  run_with_key-Handled pkey log =
      go (session remote (target_of ctx pkey) line log)
        (session-SessionEnd remote (target_of ctx pkey) line log)
    where
      go :
          (o : Outcome CommandResult × List Call)
          → SessionEnd (target_of ctx pkey) line log o
          → RunEnd ctx line
              (handle (and_then o (λ r. pure (ok r))) pure (λ e. pure (err (op_error e))))
      go (returns r, l) s = from_session pkey log r l s
      go (raises e, l) s = failed e l

  run_in-Handled : (key : Option Text) (log : List Call) → Handled (run_in remote ctx key line log)
  unfolding run_in
  run_in-Handled none log = run_with_key-Handled none log
  run_in-Handled (some key) log = Handled-bind _ _ (λ has_key l. with_file has_key l)
    where
      with_file :
          (has_key : Bool) (l : List Call)
          → Handled (
              (if has_key
                  then (load_private_key remote (to_path key) none >>= λ pkey.
                      run_with_key remote ctx line (some pkey))
                  else pure (err (op_error (file_not_found (to_text (to_path key))))))
                l)
      with_file true l = Handled-bind _ _ (λ pkey m. run_with_key-Handled (some pkey) m)
      with_file false l = unfold Handled in failed _ l

-- `run` of the runner raises nothing. A result comes from one session that ran the command's remote
-- line to its end and was closed.
pub run_generic-RunEnd :
    (remote : Remote) (ctx : GenericContext) (cmd : Command) (log : List Call)
    → RunEnd ctx (build_remote_command cmd) (run_generic remote ctx cmd log)
unfolding run_generic Handled
run_generic-RunEnd remote ctx cmd log =
    run_in-Handled remote ctx (build_remote_command cmd) ctx.ssh_key_path log

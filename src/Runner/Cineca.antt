-- ===== src/Runner/Cineca.antt =====
-- `CinecaCommandRunner` of _cineca.py, on the session of Ssh. `Path.expanduser` is a parameter.
use hpc_relay.Base.{
  ◌≡◌, refl, not, Bool, true, false, Bool-cases, inl, inr, List, [], ◌∷◌, ◌++◌, Option, none, some,
  if◌then◌else◌,
}
use hpc_relay.Exec.{Outcome, returns, raises, Exec, pure, ◌>>=◌, and_then, handle, catch}
use hpc_relay.FilePath.{FilePath, StrOrPath, str, path, path_of, to_text, join}
use hpc_relay.Result.{Exc, file_not_found, connection_closed, op_error, Result, ok, err}
use hpc_relay.Runner.Context.{CinecaHpc, leonardo, CinecaSshContext}
use hpc_relay.Runner.Remote.{build_remote_command}
use hpc_relay.Runner.Ssh.{
  is_connection_closed, Target, Call, exists, Remote, asks, load_private_key, session, checked,
}
use hpc_relay.Runner.Ssh.Session.{SessionEnd, session-SessionEnd}
use hpc_relay.Runner.Types.{Command, CommandResult}
use hpc_relay.Text.{Text, codes}

-- `_CINECA_DEFAULTS`, below the home of the user
unfoldable pub default_key : FilePath → CinecaHpc → FilePath
default_key home leonardo = join (join home (codes ".ssh")) (codes "leonardo_key")

unfoldable pub default_certificate : FilePath → CinecaHpc → FilePath
default_certificate home leonardo = join (join home (codes ".ssh")) (codes "leonardo_key-cert.pub")

unfoldable pub default_host : CinecaHpc → Text
default_host leonardo = codes "login.leonardo.cineca.it"

-- ctx.hostname or default_host
unfoldable pub chosen_host : CinecaHpc → Option Text → Text
unfolding default_host
chosen_host hpc none = default_host hpc
chosen_host hpc (some []) = default_host hpc
chosen_host hpc (some (c ∷ s)) = c ∷ s

-- The arguments of `connect`: with the key that was loaded, no other is tried.
unfoldable pub cineca_target : CinecaSshContext → Text → Target
unfolding chosen_host
cineca_target ctx pkey = record {
  hostname = chosen_host ctx.hpc ctx.hostname;
  port = ctx.port;
  username = ctx.user;
  pkey = some pkey;
  look_for_keys = false;
  allow_agent = false;
}

-- A path of the context, or the default; an empty text is as good as none.
unfoldable pub chosen_path : (FilePath → FilePath) → FilePath → Option StrOrPath → FilePath
chosen_path expanduser default none = default
chosen_path expanduser default (some (str [])) = default
chosen_path expanduser default (some (str (c ∷ s))) = expanduser (path_of (str (c ∷ s)))
chosen_path expanduser default (some (path p)) = expanduser p

module _ (remote : Remote) (home : FilePath) (expanduser : FilePath → FilePath)
    (ctx : CinecaSshContext) where
  unfoldable pub with_key : FilePath → FilePath → Text → Exec (List Call) (Result CommandResult)
  unfolding load_private_key session cineca_target checked
  with_key key certificate line = do
    pkey ← load_private_key remote key (some certificate)
    result ← session remote (cineca_target ctx pkey) line
    pure (checked result)

  -- The files have to exist, the key first.
  unfoldable pub with_files : FilePath → FilePath → Text → Exec (List Call) (Result CommandResult)
  unfolding with_key to_text
  with_files key certificate line = do
    has_key ← asks remote.flag (exists key)
    if not has_key then pure (err (op_error (file_not_found (to_text key)))) else do
      has_certificate ← asks remote.flag (exists certificate)
      if not has_certificate
          then pure (err (op_error (file_not_found (to_text certificate))))
          else with_key key certificate line

  -- `run` of the runner
  unfoldable pub run_cineca : Command → Exec (List Call) (Result CommandResult)
  unfolding with_files chosen_path default_key default_certificate build_remote_command
  run_cineca cmd =
      catch
        (with_files (chosen_path expanduser (default_key home ctx.hpc) ctx.key_path)
          (chosen_path expanduser (default_certificate home ctx.hpc) ctx.certificate_path)
          (build_remote_command cmd))
        pure (λ e. pure (err (op_error e)))

-- Why a run of the runner has no output: a file is not there, the last call having said so; a call before
-- the session raised; or the session raised.
pub data Failure (remote : Remote) (ctx : CinecaSshContext) (line : Text)
    : Exc → List Call → Type 0 where
  no_file :
      (p : FilePath) (before : List Call)
      → remote.flag (before ++ exists p ∷ []) ≡ returns false
      → Failure remote ctx line (file_not_found (to_text p)) (before ++ exists p ∷ [])
  not_looked :
      (p : FilePath) (e : Exc) (before : List Call)
      → remote.flag (before ++ exists p ∷ []) ≡ raises e
      → Failure remote ctx line e (before ++ exists p ∷ [])
  no_key :
      (key certificate : FilePath) (e : Exc) (before l : List Call)
      → load_private_key remote key (some certificate) before ≡ (raises e, l)
      → Failure remote ctx line e l
  no_session :
      (pkey : Text) (e : Exc) (before l : List Call)
      → session remote (cineca_target ctx pkey) line before ≡ (raises e, l)
      → SessionEnd (cineca_target ctx pkey) line before (raises e, l)
      → Failure remote ctx line e l

-- A run of the runner: a result comes from a session that was not lost.
pub data CinecaEnd (remote : Remote) (ctx : CinecaSshContext) (line : Text)
    : Outcome (Result CommandResult) × List Call → Type 0 where
  from_session :
      (pkey : Text) (before : List Call) (r : CommandResult) (l : List Call)
      → SessionEnd (cineca_target ctx pkey) line before (returns r, l)
      → is_connection_closed r ≡ false
      → CinecaEnd remote ctx line (returns (ok r), l)
  lost :
      (pkey : Text) (before : List Call) (r : CommandResult) (l : List Call)
      → SessionEnd (cineca_target ctx pkey) line before (returns r, l)
      → is_connection_closed r ≡ true
      → CinecaEnd remote ctx line (returns (err (op_error (connection_closed r))), l)
  failed :
      (e : Exc) (l : List Call)
      → Failure remote ctx line e l
      → CinecaEnd remote ctx line (returns (err (op_error e)), l)

module _ (remote : Remote) (ctx : CinecaSshContext) (line : Text) where
  IsHandled : Outcome (Result CommandResult) × List Call → Type 0
  IsHandled o = CinecaEnd remote ctx line (handle o pure (λ e. pure (err (op_error e))))

  session-IsHandled :
      (pkey : Text) (log : List Call)
      → IsHandled
          (and_then (session remote (cineca_target ctx pkey) line log) (λ r. pure (checked r)))
  unfolding IsHandled checked
  session-IsHandled pkey log =
      go (session remote (cineca_target ctx pkey) line log) refl
        (session-SessionEnd remote (cineca_target ctx pkey) line log)
    where
      go :
          (o : Outcome CommandResult × List Call)
          → session remote (cineca_target ctx pkey) line log ≡ o
          → SessionEnd (cineca_target ctx pkey) line log o
          → CinecaEnd remote ctx line
              (handle (and_then o (λ r. pure (checked r))) pure (λ e. pure (err (op_error e))))
      go (returns r, l) e s = elim (Bool-cases (is_connection_closed r)) [
        | inl h ↦ rw (h, checked) (lost pkey log r l s h)
        | inr h ↦ rw (h, checked) (from_session pkey log r l s h)
      ]
      go (raises x, l) e s = failed x l (no_session pkey x log l e s)

  -- A file is asked for, and the run goes on only where it is there.
  asked-IsHandled :
      (p : FilePath) (log : List Call) (m : Exec (List Call) (Result CommandResult))
      → IsHandled (m (log ++ exists p ∷ []))
      → (o : Outcome Bool) → remote.flag (log ++ exists p ∷ []) ≡ o
      → IsHandled (
          and_then
            (o, log ++ exists p ∷ [])
            (λ found. if not found then pure (err (op_error (file_not_found (to_text p)))) else m))
  unfolding IsHandled
  asked-IsHandled p log m goes_on (returns true) e = goes_on
  asked-IsHandled p log m goes_on (returns false) e = failed _ _ (no_file p log e)
  asked-IsHandled p log m goes_on (raises x) e = failed x _ (not_looked p x log e)

  with_key-IsHandled :
      (home : FilePath) (expanduser : FilePath → FilePath) (key certificate : FilePath)
      (log : List Call)
      → IsHandled (with_key remote home expanduser ctx key certificate line log)
  unfolding with_key IsHandled
  with_key-IsHandled home expanduser key certificate log =
      go (load_private_key remote key (some certificate) log) refl
    where
      go :
          (o : Outcome Text × List Call)
          → load_private_key remote key (some certificate) log ≡ o
          → IsHandled (
              and_then o
                (λ pkey. session remote (cineca_target ctx pkey) line >>= λ r. pure (checked r)))
      go (returns pkey, l) e = session-IsHandled pkey l
      go (raises x, l) e = failed x l (no_key key certificate x log l e)

  with_files-IsHandled :
      (home : FilePath) (expanduser : FilePath → FilePath) (key certificate : FilePath)
      (log : List Call)
      → IsHandled (with_files remote home expanduser ctx key certificate line log)
  unfolding with_files
  with_files-IsHandled home expanduser key certificate log =
      asked-IsHandled key log _
        (asked-IsHandled certificate (log ++ exists key ∷ []) _
          (with_key-IsHandled home expanduser key certificate _) _ refl)
        _ refl

-- `run` of the CINECA runner raises nothing. A result comes from one session that ran the command's
-- remote line to its end, was closed, and was not lost; a lost one is a `ConnectionClosedError`. Any
-- other error is that of a file which the last call did not find, or the exception of that call, of the
-- loading of the key, or of a session.
pub run_cineca-CinecaEnd :
    (remote : Remote) (home : FilePath) (expanduser : FilePath → FilePath) (ctx : CinecaSshContext)
    (cmd : Command) (log : List Call)
    → CinecaEnd remote ctx
        (build_remote_command cmd)
        (run_cineca remote home expanduser ctx cmd log)
unfolding run_cineca IsHandled
run_cineca-CinecaEnd remote home expanduser ctx cmd log =
    with_files-IsHandled remote ctx (build_remote_command cmd) home expanduser
      (chosen_path expanduser (default_key home ctx.hpc) ctx.key_path)
      (chosen_path expanduser (default_certificate home ctx.hpc) ctx.certificate_path) log

-- ===== src/Runner/Ssh.antt =====
-- The runners that go over SSH: _generic.py with paramiko, and _simple.py with the system's `ssh`.
pub mod Session
pub mod Closed
mod Tests
use hpc_relay.Base.{
  ℕ, Bool, true, false, not, ◌||◌, List, [], ◌∷◌, ◌++◌, Option, none, some, ℤ, pos, negsuc,
  if◌then◌else◌, any, take, ◌==◌,
}
use hpc_relay.Exec.{Outcome, returns, raises, Exec, pure, ◌>>=◌, ◌>>◌, catch}
use hpc_relay.FilePath.{FilePath, to_path, to_text}
use hpc_relay.Result.{Exc, file_not_found, connection_closed, op_error, Result, ok, err}
use hpc_relay.Runner.Context.{GenericContext, SimpleSshContext}
use hpc_relay.Runner.Remote.{build_remote_command}
use hpc_relay.Runner.Types.{Command, CommandResult}
use hpc_relay.Text.{Text, codes}
use hpc_relay.Text.Split.{split_lines, join_with, lower, contains}

-- `closed_phrases`
abbrev pub closed_phrases : List Text
closed_phrases =
    codes "connection closed by remote host"
    ∷ codes "connection reset by peer"
    ∷ codes "connection refused"
    ∷ codes "connection timed out"
    ∷ codes "broken pipe"
    ∷ codes "client_loop: send disconnect"
    ∷ codes "kex_exchange_identification:"
    ∷ codes "ssh_exchange_identification:"
    ∷ codes "no route to host"
    ∷ codes "network is unreachable"
    ∷ codes "ssh session terminated"
    ∷ []

-- return_code in (-1, 255)
unfoldable pub is_closed_code : ℤ → Bool
is_closed_code (pos n) = n == 255
is_closed_code (negsuc n) = n == 0

-- `haystack`
unfoldable pub error_head : Text → Text
unfolding lower split_lines join_with
error_head stderr = lower (join_with (codes "\n") (take 5 (split_lines stderr)))

unfoldable pub is_connection_closed : CommandResult → Bool
unfolding error_head contains
is_connection_closed result =
    is_closed_code result.return_code
    || any (λ phrase. contains phrase (error_head result.stderr)) closed_phrases

-- The arguments of `connect`.
pub record Target : Type 0 where
  pub hostname : Text
  pub port : ℕ
  pub username : Text
  pub pkey : Option Text
  pub look_for_keys : Bool
  pub allow_agent : Bool

-- The calls of a runner to the file system, to cryptography and to paramiko.
pub data Call : Type 0 where
  exists parse_key load_certificate : FilePath → Call
  connect : Target → Call
  exec_command : Text → Call
  read_stdout read_stderr exit_status close : Call

-- What each call comes to, by the calls so far, the last of which it is.
pub record Remote : Type 0 where
  pub flag : List Call → Outcome Bool
  pub text : List Call → Outcome Text
  pub status : List Call → Outcome ℤ

abbrev pub asks : {A : Type 0} → (List Call → Outcome A) → Call → Exec (List Call) A
asks answer call log = (answer (log ++ call ∷ []), log ++ call ∷ [])

abbrev pub finished : {A : Type 0} → Outcome A → Outcome Text × List Call → Outcome A × List Call
finished o (returns t, log) = (o, log)
finished o (raises e, log) = (raises e, log)

-- try: m  finally: cleanup
abbrev pub finally : {A : Type 0} → Exec (List Call) A → Exec (List Call) Text → Exec (List Call) A
finally m cleanup log = finished (m log).0 (cleanup (m log).1)

unfoldable pub target_of : GenericContext → Option Text → Target
target_of ctx pkey = record {
  hostname = ctx.host;
  port = ctx.port;
  username = ctx.user;
  pkey = pkey;
  look_for_keys = elim pkey [ none ↦ true | some k ↦ false ];
  allow_agent = elim pkey [ none ↦ true | some k ↦ false ];
}

module _ (remote : Remote) where
  -- `_load_private_key`; a key is what paramiko makes of the file and of the certificate.
  unfoldable pub load_private_key : FilePath → Option FilePath → Exec (List Call) Text
  unfolding to_text to_path
  load_private_key key_path none = do
    pkey ← asks remote.text (parse_key key_path)
    let cert_pub = to_path (to_text key_path ++ codes "-cert.pub")
    has_cert ← asks remote.flag (exists cert_pub)
    if has_cert then asks remote.text (load_certificate cert_pub) else pure pkey
  load_private_key key_path (some cert_pub) = do
    pkey ← asks remote.text (parse_key key_path)
    has_cert ← asks remote.flag (exists cert_pub)
    if has_cert then asks remote.text (load_certificate cert_pub) else pure pkey

  -- Connect, execute, read the output, and only then the exit status.
  unfoldable pub talk : Target → Text → Exec (List Call) CommandResult
  talk target line = do
    asks remote.text (connect target)
    asks remote.text (exec_command line)
    out ← asks remote.text read_stdout
    err_text ← asks remote.text read_stderr
    code ← asks remote.status exit_status
    pure (record { stdout = out; stderr = err_text; return_code = code })

  unfoldable pub session : Target → Text → Exec (List Call) CommandResult
  unfolding talk
  session target line = finally (talk target line) (asks remote.text close)

  module _ (ctx : GenericContext) where
    unfoldable pub run_with_key : Text → Option Text → Exec (List Call) (Result CommandResult)
    unfolding session target_of
    run_with_key line pkey = do result ← session (target_of ctx pkey) line; pure (ok result)

    -- `_run` of `GenericSshCommandRunner`
    unfoldable pub run_in : Option Text → Text → Exec (List Call) (Result CommandResult)
    unfolding run_with_key load_private_key to_path
    run_in none line = run_with_key line none
    run_in (some key) line = do
      has_key ← asks remote.flag (exists (to_path key))
      if has_key
          then (load_private_key (to_path key) none >>= λ pkey. run_with_key line (some pkey))
          else pure (err (op_error (file_not_found (to_text (to_path key)))))

    -- `run` of `GenericSshCommandRunner`
    unfoldable pub run_generic : Command → Exec (List Call) (Result CommandResult)
    unfolding run_in build_remote_command
    run_generic cmd =
        catch (run_in ctx.ssh_key_path (build_remote_command cmd)) pure
          (λ e. pure (err (op_error e)))

-- `run` of `SimpleSshCommandRunner`; `subprocess.run` is a parameter.
abbrev pub ssh_argv : SimpleSshContext → Text → List Text
ssh_argv ctx line = codes "ssh" ∷ codes "-o" ∷ codes "BatchMode=yes" ∷ ctx.host ∷ line ∷ []

unfoldable pub checked : CommandResult → Result CommandResult
unfolding is_connection_closed
checked result =
    if is_connection_closed result then err (op_error (connection_closed result)) else ok result

module _ {S : Type 0} (subprocess_run : List Text → Exec S CommandResult) where
  unfoldable pub run_simple : SimpleSshContext → Command → Exec S (Result CommandResult)
  unfolding build_remote_command checked
  run_simple ctx cmd =
      catch (subprocess_run (ssh_argv ctx (build_remote_command cmd)))
        (λ result. pure (checked result)) (λ e. pure (err (op_error e)))

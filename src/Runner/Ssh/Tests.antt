-- ===== src/Runner/Ssh/Tests.antt =====
-- Sessions with a host that answers, and with one that is out of reach.
use hpc_relay.Base.{◌≡◌, refl, true, [], ◌∷◌, none, pos}
use hpc_relay.Exec.{returns, raises}
use hpc_relay.Result.{os_error}
use hpc_relay.FilePath.{FilePath}
use hpc_relay.Runner.Cineca.{run_cineca, CinecaEnd, run_cineca-CinecaEnd}
use hpc_relay.Runner.Context.{GenericContext, leonardo, CinecaSshContext}
use hpc_relay.Runner.Remote.{build_remote_command}
use hpc_relay.Runner.Ssh.{
  is_connection_closed, connect, close, Remote, target_of, session, run_generic, is_closed_code,
}
use hpc_relay.Runner.Ssh.Session.{SessionEnd, session-SessionEnd, RunEnd, run_generic-RunEnd}
use hpc_relay.Runner.Types.{argv, Command, CommandResult}
use hpc_relay.Text.{codes}

abbrev answering : Remote
answering = record {
  flag = λ log. returns true;
  text = λ log. returns (codes "out");
  status = λ log. returns (pos 0);
}

-- Every call that reads a text fails, that is also `connect` and `close`.
abbrev unreachable : Remote
unreachable = record answering { text = λ log. raises (os_error 113) }

abbrev login : GenericContext
login = record {
  hpc = codes "a";
  host = codes "login";
  user = codes "me";
  email = none;
  ssh_key_path = none;
  port = 22;
}

abbrev hostname : Command
hostname = record {
  command = argv (codes "hostname" ∷ []);
  working_directory = none;
  env_vars = none;
}

-- A session that fails to connect is closed nevertheless.
unreachable_calls :
    (session unreachable (target_of login none) (codes "hostname") []).1
    ≡ connect (target_of login none) ∷ close ∷ []
unfolding session
unreachable_calls = refl

session-SessionEnd_example :
    SessionEnd
      (target_of login none)
      (codes "hostname")
      []
      (session answering (target_of login none) (codes "hostname") [])
session-SessionEnd_example =
    session-SessionEnd answering (target_of login none) (codes "hostname") []

run_generic-RunEnd_example :
    RunEnd login (build_remote_command hostname) (run_generic answering login hostname [])
run_generic-RunEnd_example = run_generic-RunEnd answering login hostname []

abbrev refused : CommandResult
refused = record {
  stdout = [];
  stderr = codes "ssh: connect to host login port 22: Connection refused\n";
  return_code = pos 1;
}

refused_closed : is_connection_closed refused ≡ true
unfolding is_connection_closed is_closed_code
refused_closed = refl

abbrev leonardo_login : CinecaSshContext
leonardo_login = record {
  hpc = leonardo;
  user = codes "me";
  key_path = none;
  certificate_path = none;
  hostname = none;
  account = none;
  port = 22;
}

abbrev home_me : FilePath
home_me = record { root = codes "/"; parts = codes "home" ∷ codes "me" ∷ [] }

run_cineca-CinecaEnd_example :
    CinecaEnd answering leonardo_login
      (build_remote_command hostname)
      (run_cineca answering home_me (λ p. p) leonardo_login hostname [])
run_cineca-CinecaEnd_example =
    run_cineca-CinecaEnd answering home_me (λ p. p) leonardo_login hostname []

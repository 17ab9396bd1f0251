-- ===== src/Firecrest/Tests.antt =====
-- An API that answers, and the theorems at it.
use hpc_relay.Shell.Quote.{quote}
use hpc_relay.Shell.Chars.{is_safe}
use hpc_relay.Base.{◌≡◌, refl, true, [], ◌∷◌, none, some, negsuc}
use hpc_relay.Exec.{Outcome, returns, raises}
use hpc_relay.FilePath.{str, FilePath}
use hpc_relay.Firecrest.Answers.{Json, Fields, extract_job_id}
use hpc_relay.Firecrest.Contract.{RunEnd, run-RunEnd}
use hpc_relay.Firecrest.Refreshed.{RefreshEnd, refresh_client-RefreshEnd}
use hpc_relay.Firecrest.Runner.{
  find_scratch_dir, build_sbatch_script, return_code_of, get_scratch_dir, safe_view, run,
}
use hpc_relay.Firecrest.View.{ViewEnd, views, safe_view-ViewEnd}
use hpc_relay.Firecrest.{
  authorize, resolve_secret, build_client, same_signature, compare_signature, hash_file, rebuild,
  credential_signature, build_authorization, bearer, Api, State, refresh_client,
}
use hpc_relay.Result.{value_error, no_credentials}
use hpc_relay.Runner.Context.{santis, CscsFirecrestContext}
use hpc_relay.Runner.Types.{shell, Command}
use hpc_relay.Text.{Text, codes}

abbrev api : Api
api = record {
  flag = λ log. returns true;
  content = λ log. returns (codes "0");
  systems_list = λ log. returns (
      record {
        name = Json.text (codes "santis");
        file_systems = record { default_work_dir = true; path = Json.text (codes "/s/") } ∷ [];
      }
      ∷ []);
  info = λ log.
      returns (Json.object (Fields.field (codes "username") (Json.text (codes "me")) Fields.end));
  submitted = λ log. returns (Fields.field (codes "jobid") (Json.text (codes "5")) Fields.end);
}

abbrev ctx : CscsFirecrestContext
ctx = record {
  hpc = santis;
  consumer_key_path = none;
  consumer_secret_path = none;
  consumer_key = none;
  consumer_secret = none;
  token_uri = codes "u";
  api_token = none;
  api_token_path = some (str (codes "/t"));
  firecrest_url = none;
  scratch_dir = none;
  partition = none;
  account = none;
  wall_time = codes "00:10:00";
  wait_timeout = 600;
}

-- The same without any credentials.
abbrev bare_ctx : CscsFirecrestContext
bare_ctx = record ctx { api_token_path = none }

abbrev start : State
start = record {
  signature = none ∷ none ∷ some (codes "old") ∷ [];
  client = record { firecrest_url = codes "u"; authorization = bearer (codes "old") };
  scratch_dir = none;
  log = [];
}

abbrev expand : FilePath → Outcome FilePath
expand p = returns p

abbrev plain : Json → Text
plain (Json.text t) = t
plain _ = []

abbrev hello : Command
hello = record { command = shell (codes "echo hi"); working_directory = none; env_vars = none }

script_lines :
    build_sbatch_script hello (codes "/o") (codes "/e") (codes "/r c") none (codes "1:00")
    ≡ codes
        "#!/bin/bash -l\n#SBATCH --output=/o\n#SBATCH --error=/e\n#SBATCH --nodes=1\n#SBATCH --ntasks=1\n#SBATCH --time=1:00\n\necho hi\necho $? > '/r c'\n"
unfolding build_sbatch_script quote is_safe
script_lines = refl

no_code : return_code_of (codes "x") ≡ negsuc 0
unfolding return_code_of
no_code = refl

job_found :
    extract_job_id plain (
      Fields.field
        (codes "job")
        (Json.object (Fields.field (codes "jobId") (Json.text (codes "9")) Fields.end))
        Fields.end)
    ≡ codes "9"
unfolding extract_job_id
job_found = refl

scratch_found : (get_scratch_dir api ctx start).0 ≡ returns (codes "/s/me")
unfolding get_scratch_dir find_scratch_dir
scratch_found = refl

-- The new token is in the client.
new_client :
    (refresh_client api expand (λ t. t) ctx start).1.client.authorization ≡ bearer (codes "0")
unfolding refresh_client credential_signature hash_file compare_signature same_signature rebuild
    build_client build_authorization resolve_secret authorize
new_client = refl

-- Without credentials the refresh raises, and the next one does not: the old client stays in use.
raised_once :
    (refresh_client api expand (λ t. t) bare_ctx start).0 ≡ raises (value_error no_credentials)
unfolding refresh_client credential_signature hash_file compare_signature same_signature rebuild
    build_client build_authorization resolve_secret authorize
raised_once = refl

then_silent :
    (refresh_client api expand
      (λ t. t)
      bare_ctx
      (refresh_client api expand (λ t. t) bare_ctx start).1).0
    ≡ returns tt
unfolding refresh_client credential_signature hash_file compare_signature same_signature rebuild
    build_client build_authorization resolve_secret authorize
then_silent = refl

refresh_client-RefreshEnd_example :
    RefreshEnd api expand (λ t. t) ctx start (refresh_client api expand (λ t. t) ctx start)
refresh_client-RefreshEnd_example = refresh_client-RefreshEnd api expand (λ t. t) ctx start

safe_view-ViewEnd_example :
    ViewEnd (λ e. true) (views (start).log) (safe_view api (λ e. true) (codes "/o") start)
safe_view-ViewEnd_example = safe_view-ViewEnd api (λ e. true) (codes "/o") start

run-RunEnd_example :
    RunEnd api
      (λ e. true)
      plain
      expand
      (λ t. t)
      bare_ctx
      hello
      start
      (run api (λ e. true) plain expand (λ t. t) bare_ctx hello start)
run-RunEnd_example = run-RunEnd api (λ e. true) plain expand (λ t. t) bare_ctx hello start

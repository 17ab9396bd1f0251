-- ===== src/Firecrest.antt =====
-- hpc_relay/cmd_runners/_cscs_firecrest.py: a command as a Slurm job that FirecREST submits. The
-- credentials and the client; pyfirecrest and the files are a parameter, by all the calls so far.
pub mod Answers
pub mod Runner
pub mod Refreshed
pub mod Signature
pub mod View
pub mod Scratch
pub mod Contract
pub mod JobAnswer
mod Tests
use hpc_relay.Base.{
  ℕ, Bool, true, false, ◌&&◌, ◌||◌, List, [], ◌∷◌, ◌++◌, Option, none, some, if◌then◌else◌,
}
use hpc_relay.Exec.{Outcome, returns, raises, Exec, pure, raise, ◌>>=◌, ◌>>◌}
use hpc_relay.FilePath.{given_text, given_path, StrOrPath, str, path, FilePath, path_of, to_text}
use hpc_relay.Firecrest.Answers.{Json, Fields, System}
use hpc_relay.Result.{
  Exc, value_error, file_not_found, two_sources, partial_credentials, no_credentials,
}
use hpc_relay.Runner.Context.{CscsHpc, santis, alps, CscsFirecrestContext}
use hpc_relay.Runner.Types.{EnvVars}
use hpc_relay.Text.{Text, codes, same}
use hpc_relay.Text.Chars.{is_space}
use hpc_relay.Text.Split.{strip}

-- `ClientCredentialsAuth` and `_BearerTokenAuth`
pub data Authorization : Type 0 where
  client_credentials : Text → Text → Text → Authorization
  bearer : Text → Authorization

pub record Client : Type 0 where
  pub firecrest_url : Text
  pub authorization : Authorization

-- The arguments of `submit`.
pub record Submission : Type 0 where
  pub working_dir : Text
  pub script_str : Text
  pub env_vars : Option EnvVars
  pub account : Option Text

pub data Call : Type 0 where
  is_file read_bytes read_text : FilePath → Call
  new_run_id : Call
  systems userinfo : Client → Call
  submit : Client → Submission → Call
  wait_for_job : Client → Text → Call
  view : Client → Text → Call
  close_session create_new_session : Client → Call

-- What each call comes to, by the calls so far, the last of which it is.
pub record Api : Type 0 where
  pub flag : List Call → Outcome Bool
  pub content : List Call → Outcome Text
  pub systems_list : List Call → Outcome (List System)
  pub info : List Call → Outcome Json
  pub submitted : List Call → Outcome Fields

-- `_credential_signature`, `_client`, `_resolved_scratch_dir`, and the calls made.
pub record State : Type 0 where
  pub signature : List (Option Text)
  pub client : Client
  pub scratch_dir : Option Text
  pub log : List Call

abbrev pub asks : {A : Type 0} → (List Call → Outcome A) → Call → Exec State A
asks answer call s = (answer (s.log ++ call ∷ []), record s { log = s.log ++ call ∷ [] })

abbrev pub set_signature : List (Option Text) → Exec State (Unit {0})
set_signature sig s = (returns tt, record s { signature = sig })

abbrev pub set_client : Client → Exec State (Unit {0})
set_client c s = (returns tt, record s { client = c })

-- sig == other
unfoldable pub same_signature : List (Option Text) → List (Option Text) → Bool
unfolding same
same_signature [] [] = true
same_signature (none ∷ xs) (none ∷ ys) = same_signature xs ys
same_signature (some x ∷ xs) (some y ∷ ys) = same x y && same_signature xs ys
same_signature _ _ = false

unfoldable pub default_firecrest_url : CscsHpc → Text
default_firecrest_url santis = codes "https://api.svc.cscs.ch/cw/firecrest/v2"
default_firecrest_url alps = codes "https://api.cscs.ch/hpc/firecrest/v2"

-- Where the secrets come from: a value, a path, neither, or both, which is an error.
pub data Source : Type 0 where
  value : Text → Source
  file : StrOrPath → Source
  nowhere both : Source

unfoldable pub source_of : Option Text → Option StrOrPath → Source
source_of (some v) (some p) = both
source_of (some v) none = value v
source_of none (some p) = file p
source_of none none = nowhere

-- `expanduser` and the hash are parameters.
module _ (api : Api) (expanduser : FilePath → Outcome FilePath) (sha256 : Text → Text) where
  -- `_hash_file`
  unfoldable pub hash_file : Option StrOrPath → Exec State (Option Text)
  unfolding path_of
  hash_file none = pure none
  hash_file (some p) = do
    resolved ← λ s. (expanduser (path_of p), s)
    found ← asks api.flag (is_file resolved)
    if found
        then (do raw ← asks api.content (read_bytes resolved); pure (some (sha256 raw)))
        else pure none

  -- `_credential_signature`
  unfoldable pub credential_signature : CscsFirecrestContext → Exec State (List (Option Text))
  credential_signature ctx = do
    a ← hash_file ctx.consumer_key_path
    b ← hash_file ctx.consumer_secret_path
    c ← hash_file ctx.api_token_path
    pure (a ∷ b ∷ c ∷ [])

  unfoldable pub read_secret : StrOrPath → Exec State (Option Text)
  unfolding path_of strip is_space to_text
  read_secret p = do
    resolved ← λ s. (expanduser (path_of p), s)
    found ← asks api.flag (is_file resolved)
    if found
        then (do raw ← asks api.content (read_text resolved); pure (some (strip is_space raw)))
        else raise (file_not_found (to_text resolved))

  unfoldable pub secret_from : Source → Exec State (Option Text)
  unfolding read_secret
  secret_from both = raise (value_error two_sources)
  secret_from (value v) = pure (some v)
  secret_from (file p) = read_secret p
  secret_from nowhere = pure none

  -- `_resolve_secret`
  unfoldable pub resolve_secret : Option Text → Option StrOrPath → Exec State (Option Text)
  unfolding secret_from source_of given_text given_path
  resolve_secret v p = secret_from (source_of (given_text v) (given_path p))

  unfoldable pub bearer_of : Option Text → Exec State Authorization
  bearer_of none = raise (value_error no_credentials)
  bearer_of (some token) = pure (bearer token)

  -- The choice of `_build_authorization`, by the consumer key and the consumer secret.
  unfoldable pub authorize :
      CscsFirecrestContext → Option Text → Option Text → Exec State Authorization
  unfolding bearer_of given_text
  authorize ctx (some key) (some secret) = pure (client_credentials key secret ctx.token_uri)
  authorize ctx none none = do
    token ← resolve_secret ctx.api_token ctx.api_token_path
    bearer_of (given_text token)
  authorize ctx _ _ = raise (value_error partial_credentials)

  -- `_build_authorization`
  unfoldable pub build_authorization : CscsFirecrestContext → Exec State Authorization
  unfolding given_text
  build_authorization ctx = do
    key ← resolve_secret ctx.consumer_key ctx.consumer_key_path
    secret ← resolve_secret ctx.consumer_secret ctx.consumer_secret_path
    authorize ctx (given_text key) (given_text secret)

  url_of : CscsFirecrestContext → Option Text → Text
  unfolding default_firecrest_url
  url_of ctx none = default_firecrest_url ctx.hpc
  url_of ctx (some url) = url

  -- `_build_client`
  unfoldable pub build_client : CscsFirecrestContext → Exec State Client
  unfolding url_of given_text
  build_client ctx = do
    authorization ← build_authorization ctx
    pure (record {
      firecrest_url = url_of ctx (given_text ctx.firecrest_url);
      authorization = authorization;
    })

  -- The rebuilding of the client for a new signature.
  unfoldable pub rebuild : CscsFirecrestContext → List (Option Text) → Exec State (Unit {0})
  rebuild ctx sig = do set_signature sig; client ← build_client ctx; set_client client

  unfoldable pub compare_signature :
      CscsFirecrestContext → List (Option Text) → Exec State (Unit {0})
  compare_signature ctx sig s =
      (if same_signature sig s.signature then pure tt else rebuild ctx sig) s

  -- `_refresh_client_if_credentials_changed`
  unfoldable pub refresh_client : CscsFirecrestContext → Exec State (Unit {0})
  refresh_client ctx = do sig ← credential_signature ctx; compare_signature ctx sig

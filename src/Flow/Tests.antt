-- ===== src/Flow/Tests.antt =====
-- The names of a fresh run and of its rerun.
use hpc_relay.Base.{◌≡◌, refl, none, some, [], ◌∷◌}
use hpc_relay.Exec.{returns, raises}
use hpc_relay.Result.{type_error, no_rerun_token, rerun_token_type}
use hpc_relay.Flow.{FlowRun, make_flow_run_name}
use hpc_relay.Flow.Signature.{
  str_hint, none_hint, Annotation, plain, union, Signature, validate_rerun_token_param,
  log_rerun_info,
}
use hpc_relay.Text.{Text, codes}

abbrev fresh_run : FlowRun
fresh_run = record {
  id = codes "0123456789ab";
  flow_name = some (codes "my_flow");
  rerun_token = none;
}

-- The token begins with "flo", not with "flow_", so nothing is removed from it.
fresh_name : make_flow_run_name fresh_run ≡ codes "my-flow-fresh-flo01234567"
unfolding make_flow_run_name
fresh_name = refl

rerun_name :
    make_flow_run_name (record fresh_run { rerun_token = some (codes "flow_7") })
    ≡ codes "my-flow-rerun-7"
unfolding make_flow_run_name
rerun_name = refl

abbrev shown : Annotation → Text
shown a = codes "int"

-- A flow without the parameter, one that types it as `str` alone, and one that is as it should be.
abbrev no_token : Signature
no_token = record { name = codes "f"; parameters = codes "x" ∷ []; hints = [] }

abbrev only_str : Signature
only_str = record {
  name = codes "f";
  parameters = codes "x" ∷ codes "rerun_token" ∷ [];
  hints = (codes "rerun_token", plain str_hint) ∷ [];
}

abbrev as_it_should_be : Signature
as_it_should_be = record only_str {
  hints = (codes "rerun_token", union (none_hint ∷ str_hint ∷ [])) ∷ [];
}

no_token_raises :
    validate_rerun_token_param (λ t. t) shown no_token
    ≡ raises (type_error (no_rerun_token (codes "f")))
unfolding validate_rerun_token_param
no_token_raises = refl

only_str_raises :
    validate_rerun_token_param (λ t. t) shown only_str
    ≡ raises (type_error (rerun_token_type (codes "f") (codes "int")))
unfolding validate_rerun_token_param
only_str_raises = refl

accepted : validate_rerun_token_param (λ t. t) shown as_it_should_be ≡ returns tt
unfolding validate_rerun_token_param
accepted = refl

logged :
    log_rerun_info (λ t. t) fresh_run none
    ≡ codes "Fresh run. To resume if interrupted, rerun with rerun_token='flo01234567'."
unfolding log_rerun_info
logged = refl

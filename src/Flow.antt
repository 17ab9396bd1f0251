-- ===== src/Flow.antt =====
-- prefect.py: the rerun token of a flow run, and what is named after it: the keys under which the results
-- of tasks are cached, and the name of the run. The hash of the parameters is a parameter.
pub mod Decorated
pub mod Signature
mod Tests
use hpc_relay.Base.{
  ◌≡◌, refl, Bool, true, false, List, [], ◌∷◌, ◌++◌, Option, none, some, map, if◌then◌else◌, take,
  ◌==◌,
}
use hpc_relay.FilePath.{given_text}
use hpc_relay.Logs.{drop_prefix}
use hpc_relay.Text.{Text, codes}
use hpc_relay.Text.Split.{starts_with}

-- What the Prefect runtime knows of a flow run.
pub record FlowRun : Type 0 where
  pub id : Text
  pub flow_name : Option Text
  pub rerun_token : Option Text

-- `_short_run_id`
unfoldable pub short_run_id : FlowRun → Text
short_run_id run = codes "flo" ++ take 8 run.id

-- params.get("rerun_token") or _short_run_id()
unfoldable pub token_of : FlowRun → Text
unfolding given_text short_run_id
token_of run = elim (given_text run.rerun_token) [ some token ↦ token | none ↦ short_run_id run ]

-- `rerun_aware_cache_key`
unfoldable pub rerun_aware_cache_key : {P : Type 0} → (P → Text) → FlowRun → Text → P → Text
unfolding token_of
rerun_aware_cache_key stable_hash run task_name parameters =
    token_of run ++ (codes "::" ++ (task_name ++ (codes "::" ++ stable_hash parameters)))

-- s.removeprefix(prefix)
unfoldable pub remove_prefix : Text → Text → Text
unfolding starts_with drop_prefix
remove_prefix prefix s = if starts_with s prefix then drop_prefix prefix s else s

-- s.replace("_", "-")
unfoldable pub dashed : Text → Text
dashed [] = []
dashed (c ∷ s) = (if c == b'_' then b'-' else c) ∷ dashed s

-- A value that Python takes for true, or the default.
abbrev text_or : Text → Option Text → Text
text_or default none = default
text_or default (some s) = s

abbrev kind_of : Option Text → Text
kind_of none = codes "fresh"
kind_of (some token) = codes "rerun"

-- `make_flow_run_name`
unfoldable pub make_flow_run_name : FlowRun → Text
unfolding dashed given_text token_of remove_prefix
make_flow_run_name run =
    dashed (text_or (codes "flow") (given_text run.flow_name))
    ++ (b'-'
        ∷ (kind_of (given_text run.rerun_token)
            ++ (b'-' ∷ remove_prefix (codes "flow_") (token_of run))))

-- A run that is given the token which a fresh run logs finds the results of that run: each task has the
-- same cache key for the same parameters.
pub rerun_aware_cache_key_lem :
    {P : Type 0} (stable_hash : P → Text) (fresh again : FlowRun)
    → fresh.rerun_token ≡ none
    → again.rerun_token ≡ some (short_run_id fresh)
    → (task_name : Text) (parameters : P)
    → rerun_aware_cache_key stable_hash again task_name parameters
      ≡ rerun_aware_cache_key stable_hash fresh task_name parameters
unfolding rerun_aware_cache_key short_run_id
rerun_aware_cache_key_lem stable_hash fresh again none_given given task_name parameters =
    rw (token_of, none_given, given, given_text) refl

-- ===== src/Result.antt =====
-- hpc_relay/result.py, with the exceptions that the program raises or catches.
use hpc_relay.Base.{ℕ, Bool, true, false, Option, none, List, ℤ}
use hpc_relay.FilePath.{StrOrPath}
use hpc_relay.Runner.Types.{CommandResult}
use hpc_relay.Slurm.Types.{SlurmJobId, SlurmJobResult}
use hpc_relay.Text.{Text}

-- An exception, by its class and by what its message shows. `http_error` and `os_error` are the
-- classes that the waiting loop takes for an outage; `foreign` is any other class of a library.
mutual
  pub data Exc : Type 0 where
    value_error runtime_error lookup_error type_error : Reason → Exc
    index_error key_error object_not_found assertion_error : Exc
    file_not_found : Text → Exc
    submission_error connection_closed : CommandResult → Exc
    slurm_terminal_error : SlurmJobResult → Exc
    http_error os_error foreign : ℕ → Exc

  pub data Reason : Type 0 where
    relative_working_directory : StrOrPath → Reason
    relative_submission_directory relative_script_path : StrOrPath → Reason
    no_stdout_path no_script_or_command no_job_name : Reason
    no_log_line : Text → Reason
    sacct_failed : Exc → Reason
    unrecognised_state : SlurmJobId → Text → Reason
    no_record scancel_failed : List SlurmJobId → Reason
    soap_fault : Text → Reason
    no_response : Text → ℕ → Reason
    empty_token no_temporary_file no_output_handle : Reason
    upload_failed download_failed : ℕ → Reason
    no_job_handle : Text → Text → Reason
    job_not_found : Text → Reason
    no_properties not_a_file no_username : Reason
    two_sources partial_credentials no_credentials no_job_id : Reason
    no_default_work_dir no_system : Text → Reason
    job_failed launcher_failed : ℤ → Reason
    inconsistent_lines : Text → Text → Text → Text → Reason
    no_ids_in_summary : Text → Reason
    no_summary : Reason
    no_rerun_token : Text → Reason
    rerun_token_type : Text → Text → Reason

pub record OpError : Type 0 where
  pub err : Exc
  pub stdout : Option Text
  pub stderr : Option Text
  pub return_code : Option ℤ

-- OpError(err=e)
abbrev pub op_error : Exc → OpError
op_error e = record { err = e; stdout = none; stderr = none; return_code = none }

-- `Result[T] = T | OpError`
pub data Result {ℓ} (A : Type ℓ) : Type ℓ where
  ok : A → Result A
  err : OpError → Result A

unfoldable pub is_err {ℓ} : {A : Type ℓ} → Result A → Bool
is_err (ok a) = false
is_err (err e) = true

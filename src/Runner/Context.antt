-- ===== src/Runner/Context.antt =====
-- The contexts of hpc_relay/cmd_runners, and `slurm_account` and `get_command_runner` of
-- _exec_cmd.py. Floats (`wait_timeout`) are counted in whole seconds.
use hpc_relay.Base.{ℕ, Option, none}
use hpc_relay.FilePath.{StrOrPath}
use hpc_relay.Text.{Text, codes}

pub record GenericContext : Type 0 where
  pub hpc : Text
  pub host : Text
  pub user : Text
  pub email : Option Text
  pub ssh_key_path : Option Text
  pub port : ℕ

pub record SimpleSshContext : Type 0 where
  pub host : Text
  pub account : Option Text

pub data CscsHpc : Type 0 where
  santis alps : CscsHpc

pub record CscsFirecrestContext : Type 0 where
  pub hpc : CscsHpc
  pub consumer_key_path : Option StrOrPath
  pub consumer_secret_path : Option StrOrPath
  pub consumer_key : Option Text
  pub consumer_secret : Option Text
  pub token_uri : Text
  pub api_token : Option Text
  pub api_token_path : Option StrOrPath
  pub firecrest_url : Option Text
  pub scratch_dir : Option Text
  pub partition : Option Text
  pub account : Option Text
  pub wall_time : Text
  pub wait_timeout : ℕ

pub record EcmwfEcaccessContext : Type 0 where
  pub cert_path : Option StrOrPath
  pub gateway : Option Text
  pub account : Option Text

pub data CinecaHpc : Type 0 where
  leonardo : CinecaHpc

pub record CinecaSshContext : Type 0 where
  pub hpc : CinecaHpc
  pub user : Text
  pub key_path : Option StrOrPath
  pub certificate_path : Option StrOrPath
  pub hostname : Option Text
  pub account : Option Text
  pub port : ℕ

pub data JscHpc : Type 0 where
  jupiter jureca juwels : JscHpc

pub record JscUnicoreContext : Type 0 where
  pub hpc : JscHpc
  pub project : Text
  pub token : Option StrOrPath
  pub account : Option Text

-- The `case _` of the two matches below has no value of this type.
pub data CmdContext : Type 0 where
  local : CmdContext
  generic : GenericContext → CmdContext
  simple_ssh : SimpleSshContext → CmdContext
  cscs_firecrest : CscsFirecrestContext → CmdContext
  ecmwf_ecaccess : EcmwfEcaccessContext → CmdContext
  cineca_ssh : CinecaSshContext → CmdContext
  jsc_unicore : JscUnicoreContext → CmdContext

unfoldable pub slurm_account : CmdContext → Option Text
slurm_account (cscs_firecrest c) = c.account
slurm_account (simple_ssh c) = c.account
slurm_account (ecmwf_ecaccess c) = c.account
slurm_account (cineca_ssh c) = c.account
slurm_account (jsc_unicore c) = c.account
slurm_account _ = none

abbrev cscs_name : CscsHpc → Text
cscs_name santis = codes "santis"
cscs_name alps = codes "alps"

abbrev cineca_name : CinecaHpc → Text
cineca_name leonardo = codes "leonardo"

abbrev jsc_name : JscHpc → Text
jsc_name jupiter = codes "jupiter"
jsc_name jureca = codes "jureca"
jsc_name juwels = codes "juwels"

-- `get_command_runner(context).hpc`, the name under which a runner's jobs are filed.
unfoldable pub runner_hpc : CmdContext → Text
runner_hpc local = codes "local"
runner_hpc (generic c) = c.hpc
runner_hpc (simple_ssh c) = c.host
runner_hpc (cscs_firecrest c) = cscs_name c.hpc
runner_hpc (ecmwf_ecaccess c) = codes "hpc2020"
runner_hpc (cineca_ssh c) = cineca_name c.hpc
runner_hpc (jsc_unicore c) = jsc_name c.hpc

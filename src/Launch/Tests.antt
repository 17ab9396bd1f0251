-- ===== src/Launch/Tests.antt =====
-- The command lines of launches of one stage.
use hpc_relay.Base.{◌≡◌, refl, false, true, [], ◌∷◌, none, some, negsuc}
use hpc_relay.Launch.{LaunchSlurmOptions, train, launch_command}
use hpc_relay.FilePath.{str}
use hpc_relay.Runner.Types.{argv}
use hpc_relay.Text.{codes}

abbrev training : LaunchSlurmOptions
training = record {
  wg_private_path = codes "wg/";
  stage = train;
  from_run_id = some [];
  working_dir = some (codes "/w");
  slurm_script = none;
  results_dir = none;
  run_ids = none;
  root_dir = none;
  link_venv = true;
  config = some (codes "a.yml" ∷ codes "b.yml" ∷ []);
  options = some [];
  base_config = none;
  eval_config = none;
  mini_epoch = some (negsuc 0);
  register = some false;
  cleanup_scripts = none;
  nodes = none;
  chain_jobs = none;
  account = none;
  nsys_profiling = false;
  time = none;
}

-- An empty text or list gives no flag; an epoch of -1 does.
training_command : launch_command training ≡ record {
  command = argv (
      codes "wg/hpc/launch-slurm.py"
      ∷ codes "--stage"
      ∷ codes "train"
      ∷ codes "--link-venv"
      ∷ codes "--config"
      ∷ codes "a.yml"
      ∷ codes "b.yml"
      ∷ codes "--mini-epoch"
      ∷ codes "-1"
      ∷ codes "--no-register"
      ∷ []);
  working_directory = some (str (codes "/w"));
  env_vars = none;
}
unfolding launch_command
training_command = refl

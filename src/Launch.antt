-- ===== src/Launch.antt =====
-- extra/launch_slurm.py: the command line of the launcher of WeatherGenerator, by the options of
-- `launch_slurm`.
pub mod Summary
pub mod Output
pub mod Run
pub mod Wait
mod Tests
mod Samples
use hpc_relay.Base.{
  Bool, true, false, ℕ, suc, List, [], ◌∷◌, ◌++◌, Option, none, some, ℤ, pos, negsuc, if◌then◌else◌,
}
use hpc_relay.FilePath.{StrOrPath, str, to_path, to_text, join, given_text}
use hpc_relay.Runner.Types.{Command, argv}
use hpc_relay.Text.{Text, codes}
use hpc_relay.Text.Decimal.{decimal}

-- The `Literal`s of the options.
pub data Stage : Type 0 where
  train inference evaluation : Stage

pub data YesNo : Type 0 where
  yes_scripts no_scripts : YesNo

-- `_LaunchSlurmOptions`
pub record LaunchSlurmOptions : Type 0 where
  pub wg_private_path : Text
  pub stage : Stage
  pub from_run_id : Option Text
  pub working_dir : Option Text
  pub slurm_script : Option Text
  pub results_dir : Option Text
  pub run_ids : Option (List Text)
  pub root_dir : Option Text
  pub link_venv : Bool
  pub config : Option (List Text)
  pub options : Option (List Text)
  pub base_config : Option Text
  pub eval_config : Option Text
  pub mini_epoch : Option ℤ
  pub register : Option Bool
  pub cleanup_scripts : Option YesNo
  pub nodes : Option ℤ
  pub chain_jobs : Option ℕ
  pub account : Option Text
  pub nsys_profiling : Bool
  pub time : Option Text

unfoldable pub stage_name : Stage → Text
stage_name train = codes "train"
stage_name inference = codes "inference"
stage_name evaluation = codes "evaluation"

unfoldable pub cleanup_name : YesNo → Text
cleanup_name yes_scripts = codes "yes"
cleanup_name no_scripts = codes "no"

-- str(n)
unfoldable pub int_text : ℤ → Text
unfolding decimal
int_text (pos n) = decimal n
int_text (negsuc n) = b'-' ∷ decimal (suc n)

-- A flag with the value that is given, if it is.
unfoldable pub flag_value : Text → Option Text → List Text
flag_value flag none = []
flag_value flag (some v) = flag ∷ v ∷ []

-- A flag with a value that Python takes for true.
unfoldable pub text_flag : Text → Option Text → List Text
unfolding flag_value given_text
text_flag flag v = flag_value flag (given_text v)

-- A flag with one value or more.
unfoldable pub list_flag : Text → Option (List Text) → List Text
list_flag flag none = []
list_flag flag (some []) = []
list_flag flag (some (v ∷ vs)) = flag ∷ v ∷ vs

unfoldable pub int_flag : Text → Option ℤ → List Text
unfolding int_text
int_flag flag none = []
int_flag flag (some n) = flag ∷ int_text n ∷ []

unfoldable pub switch : Text → Bool → List Text
switch flag on = if on then flag ∷ [] else []

unfoldable pub register_flag : Option Bool → List Text
register_flag none = []
register_flag (some on) = (if on then codes "--register" else codes "--no-register") ∷ []

abbrev cleanup_of : Option YesNo → Option Text
cleanup_of none = none
cleanup_of (some c) = some (cleanup_name c)

abbrev chain_of : Option ℕ → Option ℤ
chain_of none = none
chain_of (some n) = some (pos n)

-- The directory that the command runs from, and the script as seen from there.
unfoldable pub cwd_of : LaunchSlurmOptions → Text
cwd_of launch = elim launch.working_dir [ some d ↦ d | none ↦ launch.wg_private_path ]

unfoldable pub script_of : LaunchSlurmOptions → Text
unfolding to_path to_text join
script_of launch = elim launch.working_dir [
  | some d ↦
      to_text (join (join (to_path launch.wg_private_path) (codes "hpc")) (codes "launch-slurm.py"))
  | none ↦ codes "hpc/launch-slurm.py"
]

unfoldable pub launch_args : LaunchSlurmOptions → List Text
unfolding script_of stage_name text_flag list_flag switch int_flag register_flag flag_value
    cleanup_name
launch_args launch =
    script_of launch
    ∷ codes "--stage"
    ∷ stage_name launch.stage
    ∷ (text_flag (codes "--from-run-id") launch.from_run_id
        ++ (text_flag (codes "--slurm-script") launch.slurm_script
            ++ (text_flag (codes "--results-dir") launch.results_dir
                ++ (list_flag (codes "--run-ids") launch.run_ids
                    ++ (text_flag (codes "--dir") launch.root_dir
                        ++ (switch (codes "--link-venv") launch.link_venv
                            ++ (list_flag (codes "--config") launch.config
                                ++ (list_flag (codes "--options") launch.options
                                    ++ (text_flag (codes "--base-config") launch.base_config
                                        ++ (text_flag (codes "--eval-config") launch.eval_config
                                            ++ (int_flag (codes "--mini-epoch") launch.mini_epoch
                                                ++ (register_flag launch.register
                                                    ++ (flag_value (codes "--cleanup-scripts")
                                                          (cleanup_of launch.cleanup_scripts)
                                                        ++ (int_flag (codes "--nodes") launch.nodes
                                                            ++ (int_flag (codes "--chain-jobs")
                                                            (chain_of launch.chain_jobs)
                                                            ++ (text_flag (codes "--account")
                                                            launch.account
                                                            ++ (switch (codes "--nsys-profiling")
                                                            launch.nsys_profiling
                                                            ++ text_flag (codes "--time")
                                                            launch.time)))))))))))))))))

-- The command of `_launch_slurm_async`
unfoldable pub launch_command : LaunchSlurmOptions → Command
unfolding launch_args cwd_of
launch_command launch = record {
  command = argv (launch_args launch);
  working_directory = some (str (cwd_of launch));
  env_vars = none;
}

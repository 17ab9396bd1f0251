-- ===== src/Launch/Samples.antt =====
-- The functions of the launcher on a summary that it prints, and the theorems there.
use hpc_relay.Base.{◌≡◌, ◌≤◌, refl, false, List, [], ◌∷◌, ◌++◌, none, some, pos, In}
use hpc_relay.Exec.{Outcome, returns, raises}
use hpc_relay.Launch.{LaunchSlurmOptions, train}
use hpc_relay.Launch.Output.{head_tail, clip, byte_length}
use hpc_relay.Launch.Output.Short.{ShortEnd, head_tail-ShortEnd}
use hpc_relay.Launch.Run.{LaunchSlurm, launch_slurm}
use hpc_relay.Launch.Run.Launched.{LaunchEnd, launch_slurm-LaunchEnd}
use hpc_relay.Launch.Summary.{summary_line, parse_launch_summary}
use hpc_relay.Launch.Summary.Parsed.{SummaryEnd, parse_launch_summary-SummaryEnd}
use hpc_relay.Launch.Wait.{wait_for_completion}
use hpc_relay.Launch.Wait.Waited.{WaitEnd, wait_for_completion-WaitEnd}
use hpc_relay.FilePath.{to_path}
use hpc_relay.Logs.{Logs}
use hpc_relay.Result.{Exc, value_error, inconsistent_lines, ok}
use hpc_relay.Sbatch.World.{other_state, Env, World}
use hpc_relay.Slurm.Types.{SlurmJobState}
use hpc_relay.Text.{Text, codes}
use hpc_relay.Text.Regex.{finditer}
use hpc_relay.Text.Regex.Scan.{Occurs}

-- The line of a stage, as the comment on the pattern shows it.
abbrev stage_line : Text → Text → Text
stage_line ids dir =
    codes "  [train     ] 'train' | run_id=c9ika5od | job_ids=["
    ++ (ids ++ (codes "] | start_after=immediately | dir=" ++ (dir ++ codes "\n")))

abbrev two_stages : Text
two_stages =
    codes "INFO run_id= none\n"
    ++ (stage_line (codes "921904, 921905,") (codes "/w/slurm_dir")
        ++ stage_line (codes "") (codes "/w/slurm_dir"))

two_stages_parsed :
    parse_launch_summary two_stages
    ≡ returns (some (codes "c9ika5od", codes "921904" ∷ codes "921905" ∷ [], codes "/w/slurm_dir"))
unfolding parse_launch_summary hpc_relay.Text.same
two_stages_parsed = refl

other_directory :
    parse_launch_summary
      (stage_line (codes "1") (codes "/a") ++ stage_line (codes "2") (codes "/b"))
    ≡ raises (
        value_error
          (inconsistent_lines (codes "c9ika5od") (codes "/a") (codes "c9ika5od") (codes "/b")))
unfolding parse_launch_summary hpc_relay.Text.same
other_directory = refl

no_directory : parse_launch_summary (codes "run_id=a | job_ids=[1] | dir= \n") ≡ returns none
unfolding parse_launch_summary
no_directory = refl

parse_launch_summary-SummaryEnd_example :
    ((line : List Text)
      → In line (finditer summary_line two_stages)
      → Occurs summary_line line two_stages)
    × SummaryEnd two_stages (finditer summary_line two_stages) (parse_launch_summary two_stages)
parse_launch_summary-SummaryEnd_example = parse_launch_summary-SummaryEnd two_stages

-- A character of three bytes that does not fit is left out.
cut_character : clip 4 (codes "ab" ++ (0x20ac ∷ codes "c")) ≡ codes "ab"
unfolding clip
cut_character = refl

head_tail-ShortEnd_example :
    ShortEnd two_stages (head_tail two_stages) × (byte_length (head_tail two_stages) ≤ 200021)
head_tail-ShortEnd_example = head_tail-ShortEnd two_stages

abbrev one_run : LaunchSlurmOptions
one_run = record {
  wg_private_path = codes "wg";
  stage = train;
  from_run_id = none;
  working_dir = none;
  slurm_script = none;
  results_dir = none;
  run_ids = none;
  root_dir = none;
  link_venv = false;
  config = none;
  options = none;
  base_config = none;
  eval_config = none;
  mini_epoch = none;
  register = none;
  cleanup_scripts = none;
  nodes = none;
  chain_jobs = none;
  account = none;
  nsys_profiling = false;
  time = none;
}

-- The launcher prints its summary on its standard error.
abbrev launcher_env : Env
launcher_env = record {
  api = λ n. none;
  others = λ n vs. vs;
  flow_run = λ n. other_state;
  shell = λ n cmd. returns (
      ok (record {
        stdout = [];
        stderr = stage_line (codes "7") (codes "/w");
        return_code = pos 0;
      }));
  clock = λ n. n;
  flow_run_id = some (codes "run-1");
  flow_name = none;
}

abbrev new_world : World
new_world = record { vars = []; events = 0; issued = []; slept = 0; ensured = []; artifacts = [] }

abbrev unnamed : Exc → Text
unnamed e = []

abbrev the_launch : LaunchSlurm
the_launch = record {
  wg_run_id = codes "c9ika5od";
  stage = codes "train";
  slurm_jobs =
      (record {
        job_id = codes "7";
        stdout = to_path (codes "/w/WeatherGenerator/logs/c9ika5od/weathergen.part1.7.out");
        stderr = to_path (codes "/w/WeatherGenerator/logs/c9ika5od/weathergen.part1.7.err");
      })
      ∷ [];
  wg_work_dir = codes "/w";
  output_logs = (codes "7", codes "/w/WeatherGenerator/logs/c9ika5od/output.7.txt") ∷ [];
}

launch_found :
    (launch_slurm launcher_env unnamed none one_run new_world).0 ≡ returns (ok the_launch)
unfolding launch_slurm hpc_relay.Sbatch.World.run_cmd
launch_found = refl

launch_slurm-LaunchEnd_example :
    LaunchEnd launcher_env unnamed none one_run new_world
      (launch_slurm launcher_env unnamed none one_run new_world)
launch_slurm-LaunchEnd_example = launch_slurm-LaunchEnd launcher_env unnamed none one_run new_world

abbrev no_logs : Text → Outcome Logs
no_logs line = returns []

abbrev no_name : SlurmJobState → Text
no_name state = []

wait_for_completion-WaitEnd_example :
    WaitEnd launcher_env no_logs no_name (codes "hpc") the_launch false 3 [] the_launch.slurm_jobs (
      wait_for_completion launcher_env no_logs no_name
        (codes "hpc")
        the_launch
        false
        3
        (λ w. (returns none, w))
        new_world)
wait_for_completion-WaitEnd_example =
    wait_for_completion-WaitEnd launcher_env no_logs no_name (codes "hpc") the_launch false 3
      (λ w. (returns none, w)) new_world new_world refl

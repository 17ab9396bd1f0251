-- ===== src/Unicore/Tests.antt =====
-- A site that answers, and the theorems at it.
use hpc_relay.Base.{
  List, ltb, ◌≤◌, Bool-cases, inl, inr, arith, ◌≡◌, refl, true, [], ◌∷◌, none, some, pos, negsuc,
  if◌then◌else◌,
}
use hpc_relay.Exec.{returns}
use hpc_relay.Runner.Types.{EnvVars}
use hpc_relay.Text.Number.{int_of}
use hpc_relay.Text.{codes, same}
use hpc_relay.Unicore.Deleted.{JobEnd, submit_and_wait-JobEnd}
use hpc_relay.Unicore.Sites.{discover_sites}
use hpc_relay.Unicore.Runner.{interactive, environment_of}
use hpc_relay.Unicore.Ends.{statuses, is_over, Over, submit_and_wait-Over}
use hpc_relay.Unicore.{
  poll_round, is_terminal, Call, no_number, watch, job_exit_code, read_remote_text, finish, attend,
  drain_stdout, job_status, JobDesc, Client, text, Site, submit_and_wait,
}

abbrev site : Site
site = record {
  props = λ log.
      returns (some (record { status = some (codes "DONE"); exit_code = text (codes " 3 ") }));
  flag = λ log. returns true;
  content = λ log. returns (codes "out");
}

abbrev client : Client
client = record { token = codes "t"; site_url = codes "u" }

abbrev job : JobDesc
job = record {
  executable = codes "/bin/true";
  arguments = [];
  environment = [];
  imported = none;
  project = none;
}

int_of_blanks : int_of (codes " -1_0\n") ≡ some (negsuc 9)
unfolding int_of
int_of_blanks = refl

int_of_word : int_of (codes "1__0") ≡ none
unfolding int_of
int_of_word = refl

done_at_once :
    (submit_and_wait site (λ t. t) 1 client job []).0
    ≡ returns (some (record { stdout = codes "out"; stderr = codes "out"; return_code = pos 3 }))
unfolding submit_and_wait attend job_status watch finish drain_stdout read_remote_text job_exit_code
done_at_once = refl

submit_and_wait-JobEnd_example :
    JobEnd client job [] (submit_and_wait site (λ t. t) 1 client job [])
submit_and_wait-JobEnd_example = submit_and_wait-JobEnd site (λ t. t) 1 client job []

abbrev vars : EnvVars
vars = (codes "A", codes "1") ∷ []

asks_for_interaction :
    environment_of (some vars) ≡ (interactive, codes "true") ∷ (codes "A", codes "1") ∷ []
unfolding environment_of
asks_for_interaction = refl

-- A site at which the job runs until the third request for its properties.
abbrev slow_site : Site
slow_site = record {
  props = λ log. returns (
      some (record {
        status = some (if ltb (statuses log) 3 then codes "RUNNING" else codes "SUCCESSFUL");
        exit_code = no_number;
      }));
  flag = λ log. returns true;
  content = λ log. returns (codes "out");
}

slow_site_over : (log : List Call) → 3 ≤ statuses log → is_over (slow_site.props log) ≡ true
unfolding is_over is_terminal same
slow_site_over log h = elim (Bool-cases (ltb (statuses log) 3)) [
  | inl y ↦ absurd (ground (arith, y))
  | inr z ↦ rw z refl
]

waits_on : (submit_and_wait slow_site (λ t. t) 1 client job []).0 ≡ returns none
unfolding submit_and_wait attend job_status watch finish drain_stdout read_remote_text job_exit_code
    statuses poll_round
waits_on = refl

submit_and_wait-Over_example : Over (submit_and_wait slow_site (λ t. t) 4 client job [])
submit_and_wait-Over_example =
    submit_and_wait-Over slow_site (λ t. t) 3 slow_site_over 4 client job [] (omega arith)

-- A later entry of a site takes the place of an earlier one, and an entry of another type is none.
registry_sites :
    discover_sites (
      returns (
        record {
          href = codes "https://a/JUWELS/rest/core/factories/x";
          kind = codes "TargetSystemFactory";
        }
        ∷ record { href = codes "https://a/JURECA/rest/core"; kind = codes "Registry" }
        ∷ record { href = codes "https://b/rest/core"; kind = codes "TargetSystemFactory" }
        ∷ record { href = codes "https://b/JUWELS/rest/core"; kind = codes "TargetSystemFactory" }
        ∷ []))
    ≡ returns ((codes "JUWELS", codes "https://b/JUWELS/rest/core") ∷ [])
unfolding discover_sites hpc_relay.Text.Chars.is_space
registry_sites = refl

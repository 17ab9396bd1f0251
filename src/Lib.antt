-- ===== src/Lib.antt =====
-- Verification of hpc_relay, which runs commands and Slurm jobs on remote HPC systems from Prefect flows.
--
-- The program has these parts. A `Command` (cmd_runners/_types.py) is run by one of several runners
-- (cmd_runners/), which turn it into one line of shell text and hand that to a connection. slurm.py
-- knows Slurm: it submits a job with `sbatch`, and asks `sacct` for the states of jobs. _sbatch.py is the
-- task that users call: it submits a job, files its status in a Prefect variable, and polls. Of all tasks
-- that wait for jobs of one HPC, one at a time holds a lease, runs sacct, and refreshes the variables of
-- all; a guard cancels the jobs of a flow run that its user has cancelled; an outage of the Prefect
-- server is borne for a time. Errors are values (result.py). All these files are in src/hpc_relay.
--
--   Base, Text     the names that all share; Python's `str` as code points, with the library's methods,
--                  and the part of `re` that the program uses (Text/Regex)
--   FilePath       `pathlib`, as far as the program uses it
--   Shell          `quote_path` and Python's `shlex`, and a reader of POSIX shell text to check them
--   Runner         commands, contexts, the remote lines of the runners, and the SSH runners (Ssh:
--                  _generic.py, _simple.py; Cineca: _cineca.py), whose calls are logged, and the local one
--                  (Local: _local.py), with the merge of the variables into an environment (Merged)
--   Logs           run.py: the script that fetches the first and last lines of the logs of a job
--   Result, Exec   `OpError`, the exceptions, and actions that return or raise
--   Slurm          slurm.py: JobId (`_parse_job_id`), Sacct (`get_slurm_job_states`), Await
--                  (`await_completion`), Submit (`submit_slurm`)
--   Sbatch         _sbatch.py: World (the server, the clock and the HPC, as parameters), Variables (the
--                  helpers on variables), Guard (`_flow_cancellation_guard`), Refresh
--                  (`_try_update_status`), Poll (`_poll_completion_once`), Wait (`wait_completion_single`),
--                  Artifact (keys and texts of artifacts), Task (`sbatch`, `sbatch_try`, `sbatch_submit`)
--   Ecaccess       ecmwf_ecaccess_perl.py, the client of the SOAP gateway of ECMWF: Xml (replies),
--                  Envelope (requests), Encode (Base64, quoting), Client (`ECaccessClient`), Jobs (its
--                  operations on jobs), Print and Main (its command line); and _ecmwf_ecaccess.py, the
--                  runner that goes through it (Runner)
--   Unicore        _jsc.py: Unicore (the wait for a job, and the draining of its output), Runner, Sites
--                  (the registry)
--   Firecrest      _cscs_firecrest.py: Firecrest (credentials and client), Answers (the JSON of the
--                  gateway), Runner (the script, and the run of a command)
--   Launch         extra/launch_slurm.py: Launch (the options, and the command line), Summary (the parser
--                  of the launcher's output), Output (what is shown of an output), Run (a launch) and Wait
--                  (the wait for its jobs)
--   Flow           prefect.py: the rerun token of a flow run, and the keys of cached results; Signature
--                  (the check of a flow's signature) and Decorated (what the decorators pass on)
--
-- A function of the program has a definition of the same name, without a leading underscore; a branch
-- or a loop body that needs a name of its own is a definition beside it. Code that may raise is an `Exec`,
-- a function from a state to a returned value or an exception and the state behind it. In Slurm the state
-- is any type, and `run_cmd` and `asyncio.sleep` are parameters. In Sbatch it is `World`: the Prefect
-- variables as a task finds them, and the commands that it has issued. The record `Env` says, for the n-th
-- event, whether the call of the server fails, what the other tasks have made of the variables since the
-- last event, what a command answers, and what the clock shows: a theorem about every `Env` is one about
-- every interleaving and every failure.
--
-- In Ecaccess the state is the token of the client and the list of the calls that it has made to the
-- gateway and to the file system; what a call comes to is a function of that list. `_wait_for_terminal`
-- has rounds as fuel: the program waits for ever, and a theorem says which number is enough. Unicore
-- and Firecrest are of the same kind: the state is the list of calls, in Firecrest with the signature of
-- the credentials, the client and the scratch directory. The wait for a UNICORE job has rounds too, and
-- answers `none` where they end; more rounds than the site shows a status that is not terminal are
-- enough.
--
-- Numbers are natural numbers, and integers where the program has exit codes. Times are microseconds.
-- The loops of `await_completion` and `wait_completion_single` have fuel, one unit for each round, and
-- answer `none` where it ends. For the first, the fuel is enough if it exceeds the number of jobs and the
-- polls without news that the HPC makes; for the second, 9 rounds are enough during an outage of the
-- server, since the backoffs of 5, 10, 20, 40 and four times 60 seconds exceed the tolerance of 300.
--
-- Not modelled: logging; the script scripts/token_jsc.py; the function that the decorators of
-- prefect.py make, and the cached results, so that a run of a task is one of its body. `run_cmd`,
-- `json.loads`, `expanduser`, SHA-256, the decoding of bytes, and `repr` and `str` of a value are
-- parameters.
-- Python's `set` and `dict` are lists, with the lookups and updates written out.
pub mod Base
pub mod Text
pub mod Shell
pub mod FilePath
pub mod Runner
pub mod Slurm
pub mod Result
pub mod Exec
pub mod Logs
pub mod Sbatch
pub mod Ecaccess
pub mod Unicore
pub mod Firecrest
pub mod Launch
pub mod Flow

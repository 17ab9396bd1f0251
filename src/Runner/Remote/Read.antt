-- ===== src/Runner/Remote/Read.antt =====
-- What a shell makes of a remote command: `cd`, the exports, and then the command that the caller
-- gave.
use mathlib.Core.List.{map-append}
use hpc_relay.Base.{
  ℕ, ◌≡◌, refl, ◌∙◌, inl, inr, Bool, true, ◌||◌, List, [], ◌∷◌, ◌++◌, Option, none, some,
  append-nil, append_assoc, arith, all, ◌==◌,
}
use hpc_relay.FilePath.{StrOrPath, text_of}
use hpc_relay.Runner.Remote.{cd_parts, export_parts, env_parts, command_part, build_remote_command}
use hpc_relay.Runner.Types.{argv, EnvVars, Command}
use hpc_relay.Shell.Chars.{is_alnum, is_safe}
use hpc_relay.Shell.Line.{run-safe_start}
use hpc_relay.Shell.PathWord.{path_word, quote_path-ReadsAs}
use hpc_relay.Shell.Quote.{quote, quote_path, join_spaces}
use hpc_relay.Shell.Reader.{
  literal, Token, word, and_then, semi, between, bare, Reader, is_plain, step_in, run, start,
  tokens,
}
use hpc_relay.Shell.RoundTrip.{after, words, run-plain, run-quote, run-join}
use hpc_relay.Text.{Text, codes}

abbrev pub fresh : List Token → Reader
fresh done = record { mode = between; current = []; done = done }

-- Between words, `t` and a blank read as the tokens `ts`.
record Leads (t : Text) (ts : List Token) : Type 0 where
  at :
      (done : List Token) (rest : Text)
      → run (fresh done) (t ++ (b' ' ∷ rest)) ≡ run (fresh (done ++ ts)) rest

run_cd :
    (done : List Token) (rest : Text)
    → run (fresh done) (codes "cd " ++ rest) ≡ run (fresh (done ++ words (codes "cd" ∷ []))) rest
unfolding run step_in is_plain
run_cd done rest = refl

run_and :
    (done : List Token) (rest : Text)
    → run (fresh done) (codes "&& " ++ rest) ≡ run (fresh (done ++ and_then ∷ [])) rest
unfolding run step_in
run_and done rest = refl

cd-Leads :
    (s : Text)
    → Leads
        (codes "cd " ++ (quote_path s ++ codes " &&"))
        (word (literal (codes "cd")) ∷ word (path_word s) ∷ and_then ∷ [])
cd-Leads s = record {
  at = λ done rest. rw (append_assoc (quote_path s) (codes " &&") (b' ' ∷ rest)) (
      run_cd done (quote_path s ++ (codes " && " ++ rest))
      ∙ (quote_path-ReadsAs s).at_blank (fresh (done ++ words (codes "cd" ∷ [])))
          (codes "&& " ++ rest) refl refl
      ∙ run_and _ rest
      ∙ simp append_assoc);
}

run_export :
    (done : List Token) (rest : Text)
    → run (fresh done) (codes "export " ++ rest)
      ≡ run (fresh (done ++ words (codes "export" ∷ []))) rest
unfolding run step_in is_plain
run_export done rest = refl

run_semi :
    (r : Reader) (rest : Text)
    → r.mode ≡ bare
    → run r (b';' ∷ b' ' ∷ rest) ≡ run (fresh (r.done ++ word r.current ∷ semi ∷ [])) rest
unfolding run step_in
run_semi r rest m = ground arith

-- [A-Za-z0-9_]
abbrev pub is_name : ℕ → Bool
is_name c = is_alnum c || c == b'_'

is_name-is_safe : (k : Text) → all is_name k ≡ true → all is_safe (k ++ b'=' ∷ []) ≡ true
unfolding is_safe
is_name-is_safe [] h = refl
is_name-is_safe (c ∷ k) h = ground (arith, is_name-is_safe k)

run_assignment :
    (k v : Text) (done : List Token) (rest : Text)
    → all is_name k ≡ true
    → run (fresh done) (k ++ (b'=' ∷ (quote v ++ rest)))
      ≡ run (after (fresh done) (k ++ (b'=' ∷ v))) rest
run_assignment [] v done rest h =
    run-plain (fresh done) b'=' (quote v ++ rest) (inl refl) (unfold is_safe in refl)
    ∙ run-quote v (after (fresh done) (b'=' ∷ [])) rest (inr refl)
run_assignment (c ∷ k) v done rest h =
    let name = c ∷ (k ++ b'=' ∷ []) in
    rw (← append_assoc k (b'=' ∷ []) (quote v ++ rest)) (
      run-safe_start c (k ++ b'=' ∷ []) (fresh done) (quote v ++ rest) (inl refl)
        (is_name-is_safe (c ∷ k) h)
      ∙ run-quote v (after (fresh done) name) rest (inr refl)
      ∙ simp (map-append, append_assoc))

export-Leads :
    (k v : Text)
    → all is_name k ≡ true
    → Leads
        (codes "export " ++ (k ++ (b'=' ∷ (quote v ++ b';' ∷ []))))
        (word (literal (codes "export")) ∷ word (literal (k ++ (b'=' ∷ v))) ∷ semi ∷ [])
export-Leads k v h = record {
  at = λ done rest.
      rw
        (
          append_assoc k (b'=' ∷ (quote v ++ b';' ∷ [])) (b' ' ∷ rest),
          append_assoc (quote v) (b';' ∷ []) (b' ' ∷ rest),
        )
        (run_export done _
          ∙ run_assignment k v (done ++ words (codes "export" ∷ [])) (b';' ∷ b' ' ∷ rest) h
          ∙ run_semi _ rest refl
          ∙ simp append_assoc);
}

-- The tokens of the `cd` and of the exports.
abbrev pub cd_tokens : Option StrOrPath → List Token
cd_tokens none = []
cd_tokens (some d) = word (literal (codes "cd")) ∷ word (path_word (text_of d)) ∷ and_then ∷ []

abbrev pub export_tokens : EnvVars → List Token
export_tokens [] = []
export_tokens ((k, v) ∷ vars) =
    word (literal (codes "export")) ∷ word (literal (k ++ (b'=' ∷ v))) ∷ semi ∷ export_tokens vars

abbrev pub env_tokens : Option EnvVars → List Token
env_tokens none = []
env_tokens (some vars) = export_tokens vars

-- Every variable has a name that a shell accepts.
abbrev pub HasNames : EnvVars → Type 0
HasNames [] = Unit
HasNames ((k, v) ∷ vars) = (all is_name k ≡ true) × HasNames vars

abbrev pub HasEnvNames : Option EnvVars → Type 0
HasEnvNames none = Unit
HasEnvNames (some vars) = HasNames vars

lead :
    {t : Text} {ts : List Token} (ps : List Text) (last : Text) (done : List Token)
    → Leads t ts
    → run (fresh done) (join_spaces (t ∷ (ps ++ last ∷ [])))
      ≡ run (fresh (done ++ ts)) (join_spaces (ps ++ last ∷ []))
unfolding join_spaces
lead [] last done l = l.at done last
lead (p ∷ ps) last done l = l.at done _

run-exports :
    (vars : EnvVars) (last : Text) (done : List Token)
    → HasNames vars
    → run (fresh done) (join_spaces (export_parts vars ++ last ∷ []))
      ≡ run (fresh (done ++ export_tokens vars)) last
unfolding export_parts join_spaces
run-exports [] last done h = rw append-nil
run-exports ((k, v) ∷ vars) last done h =
    lead (export_parts vars) last done (export-Leads k v h.0)
    ∙ run-exports vars last _ h.1
    ∙ simp append_assoc

run-env :
    (env : Option EnvVars) (last : Text) (done : List Token)
    → HasEnvNames env
    → run (fresh done) (join_spaces (env_parts env ++ last ∷ []))
      ≡ run (fresh (done ++ env_tokens env)) last
unfolding env_parts join_spaces
run-env none last done h = rw append-nil
run-env (some vars) last done h = run-exports vars last done h

-- The line is read as the `cd`, the exports, and then the caller's command, from its first
-- character on and in a state between words.
pub run-build_remote_command :
    (cmd : Command)
    → HasEnvNames cmd.env_vars
    → tokens (build_remote_command cmd)
      ≡ run
          (fresh (cd_tokens cmd.working_directory ++ env_tokens cmd.env_vars))
          (command_part cmd.command)
unfolding tokens build_remote_command
run-build_remote_command cmd h = go cmd.working_directory
  where
    go :
        (d : Option StrOrPath)
        → run start
            (join_spaces (cd_parts d ++ (env_parts cmd.env_vars ++ command_part cmd.command ∷ [])))
          ≡ run (fresh (cd_tokens d ++ env_tokens cmd.env_vars)) (command_part cmd.command)
    go none = run-env cmd.env_vars (command_part cmd.command) [] h
    go (some d) =
        unfold cd_parts in
        (lead (env_parts cmd.env_vars) (command_part cmd.command) [] (cd-Leads (text_of d))
          ∙ run-env cmd.env_vars (command_part cmd.command) _ h)

-- The shell of the HPC reads the line as `cd` to the working directory, one export for each variable
-- with its value character for character, and the words of the argument list, if each variable's
-- name is made of letters, digits and underscores.
pub tokens-build_remote_command :
    (args : List Text) (dir : Option StrOrPath) (env : Option EnvVars)
    → HasEnvNames env
    → tokens (
        build_remote_command
          (record { command = argv args; working_directory = dir; env_vars = env }))
      ≡ some (cd_tokens dir ++ (env_tokens env ++ words args))
tokens-build_remote_command args dir env h =
    run-build_remote_command _ h
    ∙ unfold command_part in
      run-join args (fresh (cd_tokens dir ++ env_tokens env)) refl refl ∙ simp append_assoc

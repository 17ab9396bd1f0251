-- ===== src/Slurm/Submit/Line.antt =====
-- What the shell makes of the sbatch line.
use hpc_relay.Base.{
  ℕ, ◌≡◌, refl, true, List, [], ◌∷◌, ◌++◌, Option, none, some, arith, all, all-append,
}
use hpc_relay.FilePath.{FilePath, StrOrPath, text_of, to_text}
use hpc_relay.Runner.Context.{CmdContext}
use hpc_relay.Shell.Chars.{is_safe}
use hpc_relay.Shell.Line.{
  AllRead, no_parts, part, AllRead-append, words_of, prefixed-ReadsAs, safe-ReadsAs,
  tokens-join_spaces,
}
use hpc_relay.Shell.PathWord.{ReadsAs, path_word, quote_path-ReadsAs}
use hpc_relay.Shell.Quote.{quote, quote_path, join_spaces}
use hpc_relay.Shell.Reader.{literal, ShellWord, tokens}
use hpc_relay.Slurm.Submit.{
  path_option, plain_option, slurm_option_parts, option_parts, error_option, resolve_account,
  payload, cmd_parts,
}
use hpc_relay.Slurm.Types.{SlurmJob}
use hpc_relay.Text.{Text, codes}

-- The words that each part of the line is to be.
abbrev pub path_option_words : Text → Option StrOrPath → List ShellWord
path_option_words name none = []
path_option_words name (some p) = literal name ∷ path_word (text_of p) ∷ []

abbrev pub plain_option_words : Text → Option Text → List ShellWord
plain_option_words name none = []
plain_option_words name (some v) = literal (codes "--" ++ (name ++ (b'=' ∷ v))) ∷ []

abbrev pub slurm_option_words : List (Text × Text) → List ShellWord
slurm_option_words [] = []
slurm_option_words ((name, v) ∷ rest) =
    literal (codes "--" ++ (name ++ (b'=' ∷ v))) ∷ slurm_option_words rest

abbrev pub option_words : Option (List (Text × Text)) → List ShellWord
option_words none = []
option_words (some os) = slurm_option_words os

abbrev pub payload_word : Option StrOrPath → Option Text → ShellWord
payload_word (some p) w = path_word (text_of p)
payload_word none (some w) = literal (codes "--wrap=" ++ w)
payload_word none none = []

abbrev pub job_words : SlurmJob → CmdContext → FilePath → ShellWord → List ShellWord
job_words job ctx out last =
    literal (codes "sbatch")
    ∷ literal (codes "--job-name=" ++ job.job_name)
    ∷ literal (codes "--output")
    ∷ path_word (to_text out)
    ∷ (path_option_words (codes "--error") (error_option job.stderr)
        ++ (path_option_words (codes "--chdir") job.working_directory
            ++ (plain_option_words (codes "time") job.time_limit
                ++ (plain_option_words (codes "account") (resolve_account job.account ctx)
                    ++ (option_words job.slurm_options ++ last ∷ [])))))

-- The options that go into the line unquoted have no character that the shell would read.
abbrev pub IsSafe : Option Text → Type 0
IsSafe none = Unit
IsSafe (some v) = all is_safe v ≡ true

abbrev pub AreSafe : List (Text × Text) → Type 0
AreSafe [] = Unit
AreSafe ((name, v) ∷ rest) = (all is_safe name ≡ true) × (all is_safe v ≡ true) × AreSafe rest

abbrev pub OptionsSafe : Option (List (Text × Text)) → Type 0
OptionsSafe none = Unit
OptionsSafe (some os) = AreSafe os

path_option-AllRead :
    (c : ℕ) (name : Text) (p : Option StrOrPath)
    → all is_safe (c ∷ name) ≡ true
    → AllRead (path_option (c ∷ name) p) (path_option_words (c ∷ name) p)
unfolding path_option
path_option-AllRead c name none h = no_parts
path_option-AllRead c name (some p) h =
    part (safe-ReadsAs c name h) (part (quote_path-ReadsAs (text_of p)) no_parts)

all-option :
    (name v : Text)
    → all is_safe name ≡ true
    → all is_safe v ≡ true
    → all is_safe (codes "--" ++ (name ++ (b'=' ∷ v))) ≡ true
unfolding is_safe
all-option name v hn hv = rw (all-append is_safe name (b'=' ∷ v)) (ground arith)

plain_option-AllRead :
    (name : Text) (o : Option Text)
    → all is_safe name ≡ true
    → IsSafe o
    → AllRead (plain_option name o) (plain_option_words name o)
unfolding plain_option
plain_option-AllRead name none h s = no_parts
plain_option-AllRead name (some v) h s = part (safe-ReadsAs b'-' _ (all-option name v h s)) no_parts

slurm_options-AllRead :
    (os : List (Text × Text)) → AreSafe os → AllRead (slurm_option_parts os) (slurm_option_words os)
unfolding slurm_option_parts
slurm_options-AllRead [] h = no_parts
slurm_options-AllRead ((name, v) ∷ os) (hn, hv, h) =
    part (safe-ReadsAs b'-' _ (all-option name v hn hv)) (slurm_options-AllRead os h)

options-AllRead :
    (o : Option (List (Text × Text))) → OptionsSafe o → AllRead (option_parts o) (option_words o)
unfolding option_parts
options-AllRead none h = no_parts
options-AllRead (some os) h = slurm_options-AllRead os h

payload-ReadsAs :
    (script : Option StrOrPath) (wrap : Option Text) (last : Text)
    → payload script wrap ≡ some last
    → ReadsAs last (payload_word script wrap)
unfolding payload
payload-ReadsAs (some p) w last h =
    let e : quote_path (text_of p) ≡ last = ground arith in rw e at (quote_path-ReadsAs (text_of p))
payload-ReadsAs none (some w) last h =
    let e : codes "--wrap=" ++ quote w ≡ last = ground arith in
    rw e at (prefixed-ReadsAs b'-' (codes "-wrap=") w (unfold is_safe in refl))
payload-ReadsAs none none last h = cc

-- The shell of the HPC reads the sbatch line as the words that the job asks for, each path with its
-- tilde left to the shell and all other text character for character: the job's name, its paths,
-- and the script or the command to wrap. The time limit, the account and the further options go in
-- unquoted, and have to be made of the characters that need no quoting.
pub tokens-cmd_parts :
    (job : SlurmJob) (ctx : CmdContext) (out : FilePath) (script : Option StrOrPath)
    (wrap : Option Text) (last : Text)
    → payload script wrap ≡ some last
    → IsSafe job.time_limit
    → IsSafe (resolve_account job.account ctx)
    → OptionsSafe job.slurm_options
    → tokens (join_spaces (cmd_parts job ctx out last))
      ≡ some (words_of (job_words job ctx out (payload_word script wrap)))
unfolding cmd_parts
tokens-cmd_parts job ctx out script wrap last p t a o = tokens-join_spaces (
    part (safe-ReadsAs b's' (codes "batch") (unfold is_safe in refl)) (
      part (prefixed-ReadsAs b'-' (codes "-job-name=") job.job_name (unfold is_safe in refl)) (
        part (safe-ReadsAs b'-' (codes "-output") (unfold is_safe in refl)) (
          part (quote_path-ReadsAs (to_text out)) (
            AllRead-append
              (path_option-AllRead b'-' (codes "-error") (error_option job.stderr)
                (unfold is_safe in refl))
              (AllRead-append
                (path_option-AllRead b'-' (codes "-chdir") job.working_directory
                  (unfold is_safe in refl))
                (AllRead-append
                  (plain_option-AllRead (codes "time") job.time_limit (unfold is_safe in refl) t)
                  (AllRead-append
                    (plain_option-AllRead (codes "account") (resolve_account job.account ctx)
                      (unfold is_safe in refl) a)
                    (AllRead-append (options-AllRead job.slurm_options o)
                      (part (payload-ReadsAs script wrap last p) no_parts))))))))))

-- ===== src/Shell/Reader.antt =====
-- How a POSIX shell reads a line: words, quoting, tilde prefixes, `&&` and `;`. It refuses whatever
-- else has a meaning to the shell (expansions, redirections, globs, comments, newlines), so that
-- a line that it reads does nothing beyond the tokens that it returns.
use hpc_relay.Base.{
  ℕ, Bool, not, ◌||◌, List, [], ◌∷◌, ◌++◌, Option, none, some, ◌==◌, if◌then◌else◌, any, map,
}
use hpc_relay.Shell.Chars.{is_login_char}
use hpc_relay.Text.{Text, codes}

-- A word is literal characters, and at its start perhaps a tilde prefix with its login name.
pub data Piece : Type 0 where
  lit : ℕ → Piece
  tilde : Text → Piece

abbrev pub ShellWord : Type 0
ShellWord = List Piece

abbrev pub literal : Text → ShellWord
literal s = map lit s

pub data Token : Type 0 where
  word : ShellWord → Token
  and_then : Token
  semi : Token

pub data Mode : Type 0 where
  between bare single double ampersand : Mode
  login : Text → Mode

pub record Reader : Type 0 where
  pub mode : Mode
  pub current : ShellWord
  pub done : List Token

abbrev specials : Text
specials = codes "|&;<>()$`\\\"' \t\n*?[]#~{}!^"

-- no meaning to the shell
unfoldable pub is_plain : ℕ → Bool
is_plain c = not (any (λ d. c == d) specials)

abbrev push : Reader → ℕ → Mode → Reader
push r c m = record r { current = r.current ++ lit c ∷ []; mode = m }

-- the end of a word, with the tokens that its end stands for
abbrev close : Reader → ShellWord → List Token → Mode → Reader
close r w after m = record { mode = m; current = []; done = r.done ++ (word w ∷ after) }

abbrev emit : Reader → Token → Reader
emit r t = record r { mode = between; done = r.done ++ t ∷ [] }

step_between : Reader → ℕ → Option Reader
step_between r c =
    if c == b' ' || c == b'\t'
    then some r
    else if c == 39
    then some (record r { mode = single })
    else if c == 34
    then some (record r { mode = double })
    else if c == b'~'
    then some (record r { mode = login [] })
    else if c == b';'
    then some (emit r semi)
    else if c == b'&'
    then some (record r { mode = ampersand })
    else if is_plain c
    then some (push r c bare)
    else none

step_bare : Reader → ℕ → Option Reader
step_bare r c =
    if c == b' ' || c == b'\t'
    then some (close r r.current [] between)
    else if c == 39
    then some (record r { mode = single })
    else if c == 34
    then some (record r { mode = double })
    else if c == b';'
    then some (close r r.current (semi ∷ []) between)
    else if c == b'&'
    then some (close r r.current [] ampersand)
    else if is_plain c || c == b'~'
    then some (push r c bare)
    else none

step_login : Reader → Text → ℕ → Option Reader
step_login r user c =
    if c == b'/'
    then some (record r { current = tilde user ∷ lit c ∷ []; mode = bare })
    else if c == b' ' || c == b'\t'
    then some (close r (tilde user ∷ []) [] between)
    else if is_login_char c
    then some (record r { mode = login (user ++ c ∷ []) })
    else none

unfoldable pub step_in : Mode → Reader → ℕ → Option Reader
unfolding step_between step_bare step_login
step_in between r c = step_between r c
step_in bare r c = step_bare r c
step_in single r c = some (if c == 39 then record r { mode = bare } else push r c single)
step_in double r c =
    if c == 34
    then some (record r { mode = bare })
    else if c == b'$' || c == b'`' || c == b'\\' || c == b'!'
    then none
    else some (push r c double)
step_in ampersand r c = if c == b'&' then some (emit r and_then) else none
step_in (login user) r c = step_login r user c

-- An open quote or a lone `&` at the end is refused.
unfoldable pub finish : Mode → Reader → Option (List Token)
finish between r = some r.done
finish bare r = some (r.done ++ word r.current ∷ [])
finish (login user) r = some (r.done ++ word (tilde user ∷ []) ∷ [])
finish _ r = none

abbrev pub and_run : Option Reader → (Reader → Option (List Token)) → Option (List Token)
and_run none k = none
and_run (some r) k = k r

unfoldable pub run : Reader → Text → Option (List Token)
run r [] = finish r.mode r
run r (c ∷ s) = and_run (step_in r.mode r c) (λ q. run q s)

abbrev pub start : Reader
start = record { mode = between; current = []; done = [] }

-- The tokens of a line.
unfoldable pub tokens : Text → Option (List Token)
unfolding run step_in finish is_plain
tokens = run start

-- ===== src/Shell/Quote.antt =====
-- `shlex.quote` and `shlex.join` of Python's library, and `quote_path` of
-- hpc_relay/cmd_runners/_types.py.
use hpc_relay.Base.{ℕ, List, [], ◌∷◌, ◌++◌, ◌==◌, all, if◌then◌else◌}
use hpc_relay.Shell.Chars.{is_login_char, is_safe}
use hpc_relay.Text.{Text}

abbrev pub apostrophe : ℕ
apostrophe = 39

-- s.replace("'", "'\"'\"'")
unfoldable pub escape_apostrophes : Text → Text
escape_apostrophes [] = []
escape_apostrophes (c ∷ s) =
    let rest = escape_apostrophes s in
    if c == apostrophe then apostrophe ∷ 34 ∷ apostrophe ∷ 34 ∷ apostrophe ∷ rest else c ∷ rest

-- shlex.quote
unfoldable pub quote : Text → Text
unfolding escape_apostrophes
quote [] = apostrophe ∷ apostrophe ∷ []
quote (c ∷ s) =
    if all is_safe (c ∷ s)
    then c ∷ s
    else apostrophe ∷ (escape_apostrophes (c ∷ s) ++ (apostrophe ∷ []))

-- " ".join(texts)
unfoldable pub join_spaces : List Text → Text
join_spaces [] = []
join_spaces (s ∷ []) = s
join_spaces (s ∷ t ∷ ss) = s ++ (b' ' ∷ join_spaces (t ∷ ss))

-- (quote(arg) for arg in argv)
unfoldable pub quote_all : List Text → List Text
quote_all [] = []
quote_all (s ∷ ss) = quote s ∷ quote_all ss

-- shlex.join
unfoldable pub join : List Text → Text
join argv = join_spaces (quote_all argv)

-- What `_TILDE_PREFIX_RE.match` leaves behind the tilde: the longest run of login characters, and
-- the rest of the text.
unfoldable pub split_login : Text → Text × Text
split_login [] = ([], [])
split_login (c ∷ s) =
    let (user, rest) = split_login s in if is_login_char c then (c ∷ user, rest) else ([], c ∷ s)

-- `quote_path` behind a match: `s` is the whole text, `user` and `rest` the two parts behind `~`.
unfoldable pub quote_tilde : Text → Text → Text → Text
quote_tilde s user [] = s
quote_tilde s user (c ∷ []) = if c == b'/' then s else quote s
quote_tilde s user (c ∷ d ∷ rest) =
    if c == b'/' then b'~' ∷ (user ++ (b'/' ∷ quote (d ∷ rest))) else quote s

unfoldable pub quote_path : Text → Text
quote_path [] = quote []
quote_path (c ∷ s) =
    let (user, rest) = split_login s in
    if c == b'~' then quote_tilde (c ∷ s) user rest else quote (c ∷ s)

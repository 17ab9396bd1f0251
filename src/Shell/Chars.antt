-- ===== src/Shell/Chars.antt =====
-- Classes of ASCII characters.
use hpc_relay.Base.{ℕ, Bool, ◌&&◌, ◌||◌, ◌==◌, leb}

abbrev within : ℕ → ℕ → ℕ → Bool
within lo hi c = leb lo c && leb c hi

-- [A-Za-z0-9]
abbrev pub is_alnum : ℕ → Bool
is_alnum c = within b'a' b'z' c || within b'A' b'Z' c || within b'0' b'9' c

-- [A-Za-z0-9._-], the class of `_TILDE_PREFIX_RE` and `_TILDE_ABSOLUTE_RE`
abbrev pub is_login_char : ℕ → Bool
is_login_char c = is_alnum c || c == b'.' || c == b'_' || c == b'-'

-- [A-Za-z0-9_@%+=:,./-], the characters that `shlex.quote` lets stand
unfoldable pub is_safe : ℕ → Bool
is_safe c =
    is_alnum c
    || c == b'_'
    || c == b'@'
    || c == b'%'
    || c == b'+'
    || c == b'='
    || c == b':'
    || c == b','
    || c == b'.'
    || c == b'/'
    || c == b'-'

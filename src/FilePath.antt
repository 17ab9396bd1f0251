-- ===== src/FilePath.antt =====
-- Paths: `pathlib.PurePosixPath` of Python's library, as far as hpc_relay uses it, and the type
-- `str | Path` of its fields.
use hpc_relay.Base.{
  Option, none, some, Bool, not, ◌&&◌, List, [], ◌∷◌, ◌++◌, ◌==◌, if◌then◌else◌, keep_if,
}
use hpc_relay.Text.{Text, same}
use hpc_relay.Text.Split.{split_where}

-- `root` is "", "/" or "//".
pub record FilePath : Type 0 where
  pub root : Text
  pub parts : List Text

-- s.split("/")
unfoldable pub segments : Text → List Text
unfolding split_where
segments = split_where (λ c. c == b'/')

-- Empty segments and "." are dropped.
abbrev pub is_part : Text → Bool
is_part t = not (same t []) && not (same t (b'.' ∷ []))

-- Exactly two slashes in front stay two; one, or three and more, are one.
unfoldable pub split_root : Text → Text
split_root [] = []
split_root (a ∷ []) = if a == b'/' then b'/' ∷ [] else []
split_root (a ∷ b ∷ []) =
    if a == b'/' then (if b == b'/' then b'/' ∷ b'/' ∷ [] else b'/' ∷ []) else []
split_root (a ∷ b ∷ c ∷ s) =
    if a == b'/' then (if b == b'/' && not (c == b'/') then b'/' ∷ b'/' ∷ [] else b'/' ∷ []) else []

-- Path(s)
unfoldable pub to_path : Text → FilePath
unfolding segments split_root same
to_path s = record { root = split_root s; parts = keep_if is_part (segments s) }

-- "/".join(parts)
unfoldable pub join_slashes : List Text → Text
join_slashes [] = []
join_slashes (t ∷ []) = t
join_slashes (t ∷ u ∷ ts) = t ++ (b'/' ∷ join_slashes (u ∷ ts))

or_dot : Text → Text
or_dot [] = b'.' ∷ []
or_dot (c ∷ s) = c ∷ s

-- str(path)
unfoldable pub to_text : FilePath → Text
unfolding join_slashes or_dot
to_text p = or_dot (p.root ++ join_slashes p.parts)

-- path.is_absolute()
unfoldable pub is_absolute : FilePath → Bool
unfolding same
is_absolute p = not (same p.root [])

-- path / s
unfoldable pub join : FilePath → Text → FilePath
unfolding to_path is_absolute
join p s =
    let q = to_path s in
    if is_absolute q then q else record { root = p.root; parts = p.parts ++ q.parts }

drop_last : List Text → List Text
drop_last [] = []
drop_last (t ∷ []) = []
drop_last (t ∷ u ∷ ts) = t ∷ drop_last (u ∷ ts)

-- path.parent
unfoldable pub parent : FilePath → FilePath
unfolding drop_last
parent p = record p { parts = drop_last p.parts }

last_part : List Text → Text
last_part [] = []
last_part (t ∷ []) = t
last_part (t ∷ u ∷ ts) = last_part (u ∷ ts)

-- path.name
unfoldable pub name_of : FilePath → Text
unfolding last_part
name_of p = last_part p.parts

-- `str | Path`
pub data StrOrPath : Type 0 where
  str : Text → StrOrPath
  path : FilePath → StrOrPath

-- str(x)
unfoldable pub text_of : StrOrPath → Text
unfolding to_text
text_of (str s) = s
text_of (path p) = to_text p

-- Path(x)
unfoldable pub path_of : StrOrPath → FilePath
unfolding to_path
path_of (str s) = to_path s
path_of (path p) = p

-- A value, or a path, that Python takes for true; a `Path` always is.
unfoldable pub given_text : Option Text → Option Text
given_text none = none
given_text (some []) = none
given_text (some (c ∷ s)) = some (c ∷ s)

unfoldable pub given_path : Option StrOrPath → Option StrOrPath
given_path none = none
given_path (some (str [])) = none
given_path (some p) = some p

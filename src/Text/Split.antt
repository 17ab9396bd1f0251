-- ===== src/Text/Split.antt =====
-- Python's ways to take a `str` apart.
use hpc_relay.Base.{
  ℕ, ◌+◌, leb, ◌||◌, Bool, true, false, ◌&&◌, List, [], ◌∷◌, ◌++◌, Option, none, some, ◌==◌,
  if◌then◌else◌, keep_if,
}
use hpc_relay.Text.{Text}
use hpc_relay.Text.Chars.{is_space, is_break}

-- A character in front of the first piece.
abbrev pub prepend : ℕ → List Text → List Text
prepend c [] = (c ∷ []) ∷ []
prepend c (t ∷ ts) = (c ∷ t) ∷ ts

-- s.split(sep), for the one-character separators that satisfy `p`
unfoldable pub split_where : (ℕ → Bool) → Text → List Text
split_where p [] = [] ∷ []
split_where p (c ∷ s) = let rest = split_where p s in if p c then [] ∷ rest else prepend c rest

-- The last piece of a text that was split.
abbrev pub last_piece : List Text → Text
last_piece [] = []
last_piece (t ∷ []) = t
last_piece (t ∷ u ∷ ts) = last_piece (u ∷ ts)

-- s.rsplit(sep, 1)[-1]
unfoldable pub after_last : (ℕ → Bool) → Text → Text
unfolding split_where
after_last p s = last_piece (split_where p s)

is_nonempty : Text → Bool
is_nonempty [] = false
is_nonempty (c ∷ s) = true

-- s.split()
unfoldable pub split_blank : Text → List Text
unfolding split_where is_nonempty is_space
split_blank s = keep_if is_nonempty (split_where is_space s)

-- Line ends are not kept, "\r\n" is one, and none at the end opens one more line. The flag says
-- that a "\r" stands just before.
lines_from : Bool → Text → List Text
lines_from after_return [] = []
lines_from after_return (c ∷ s) =
    let rest = lines_from (c == b'\r') s in
    if after_return && c == b'\n' then rest else if is_break c then [] ∷ rest else prepend c rest

-- s.splitlines()
unfoldable pub split_lines : Text → List Text
unfolding lines_from is_break
split_lines = lines_from false

-- s.partition(sep): `none` where the separator does not occur.
unfoldable pub partition : ℕ → Text → Option (Text × Text)
partition sep [] = none
partition sep (c ∷ s) =
    let rest = partition sep s in
    if c == sep
    then some ([], s)
    else elim rest [ none ↦ none | some (before, behind) ↦ some (c ∷ before, behind) ]

-- s.lstrip(), s.rstrip(), s.strip() on the characters that satisfy `p`
unfoldable pub strip_left : (ℕ → Bool) → Text → Text
strip_left p [] = []
strip_left p (c ∷ s) = let rest = strip_left p s in if p c then rest else c ∷ s

unfoldable pub or_drop : Bool → ℕ → Text → Text
or_drop true c [] = []
or_drop _ c s = c ∷ s

unfoldable pub strip_right : (ℕ → Bool) → Text → Text
unfolding or_drop
strip_right p [] = []
strip_right p (c ∷ s) = or_drop (p c) c (strip_right p s)

unfoldable pub strip : (ℕ → Bool) → Text → Text
unfolding strip_left strip_right
strip p s = strip_right p (strip_left p s)

-- s.replace(a ++ b, new), for a pattern of two characters
unfoldable pub replace_pair : ℕ → ℕ → Text → Text → Text
replace_pair a b new [] = []
replace_pair a b new (c ∷ []) = c ∷ []
replace_pair a b new (c ∷ d ∷ s) = elim (c == a && d == b) [
  | true ↦ new ++ replace_pair a b new s
  | false ↦ c ∷ replace_pair a b new (d ∷ s)
]

-- s.startswith(prefix)
unfoldable pub starts_with : Text → Text → Bool
starts_with s [] = true
starts_with [] (d ∷ prefix) = false
starts_with (c ∷ s) (d ∷ prefix) = c == d && starts_with s prefix

-- sep.join(texts)
unfoldable pub join_with : Text → List Text → Text
join_with sep [] = []
join_with sep (t ∷ []) = t
join_with sep (t ∷ u ∷ ts) = t ++ (sep ++ join_with sep (u ∷ ts))

-- s.lower(), as far as ASCII goes: capital letters, the Kelvin sign, and the dotted capital i, which
-- becomes two characters. Others do not become ASCII, and are left as they are.
unfoldable pub lower : Text → Text
lower [] = []
lower (c ∷ s) =
    let rest = lower s in
    if leb b'A' c && leb c b'Z'
    then (c + 32) ∷ rest
    else if c == 0x212a
    then b'k' ∷ rest
    else if c == 0x130
    then b'i' ∷ 0x307 ∷ rest
    else c ∷ rest

-- part in s
unfoldable pub contains : Text → Text → Bool
unfolding starts_with
contains part [] = starts_with [] part
contains part (c ∷ s) = starts_with (c ∷ s) part || contains part s

-- ===== src/Text/Layout.antt =====
-- `textwrap.dedent` of Python's library, and the padding of a printed column.
use hpc_relay.Base.{
  ℕ, zero, suc, ◌-◌, Bool, ◌||◌, List, [], ◌∷◌, ◌++◌, map, Option, none, some, all, length, ◌==◌,
  if◌then◌else◌,
}
use hpc_relay.Text.{Text}
use hpc_relay.Text.Split.{split_where, join_with, starts_with}

abbrev is_blank : ℕ → Bool
is_blank c = c == b' ' || c == b'\t'

-- A line of blanks alone becomes empty.
clear_blank : Text → Text
clear_blank line = if all is_blank line then [] else line

indent : Text → Text
indent [] = []
indent (c ∷ s) = if is_blank c then c ∷ indent s else []

common_prefix : Text → Text → Text
common_prefix (c ∷ s) (d ∷ t) = if c == d then c ∷ common_prefix s t else []
common_prefix _ _ = []

-- The indent that the lines share, those that are empty left aside.
margin : List Text → Option Text
margin [] = none
margin ([] ∷ lines) = margin lines
margin ((c ∷ s) ∷ lines) = elim (margin lines) [
  | none ↦ some (indent (c ∷ s))
  | some m ↦ some (common_prefix (indent (c ∷ s)) m)
]

-- s[n:]
unfoldable pub drop : ℕ → Text → Text
drop zero s = s
drop (suc n) [] = []
drop (suc n) (c ∷ s) = drop n s

cut : Option Text → Text → Text
unfolding drop
cut none line = line
cut (some m) line = if starts_with line m then drop (length m) line else line

-- textwrap.dedent(s)
unfoldable pub dedent : Text → Text
unfolding split_where join_with clear_blank indent common_prefix margin cut starts_with
dedent s =
    let lines = map clear_blank (split_where (λ c. c == b'\n') s) in
    join_with (b'\n' ∷ []) (map (cut (margin lines)) lines)

blanks : ℕ → Text
blanks zero = []
blanks (suc n) = b' ' ∷ blanks n

-- "%-{width}s" % s
unfoldable pub pad : ℕ → Text → Text
unfolding blanks
pad width s = s ++ blanks (width - length s)

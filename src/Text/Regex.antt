-- ===== src/Text/Regex.antt =====
-- Python's `re`, for patterns that are a row of pieces: a literal, or a class of characters that is
-- repeated. Like `re`, it goes back on its choices from the last piece to the first.
pub mod Sound
pub mod Complete
pub mod Scan
use hpc_relay.Base.{
  ℕ, zero, suc, ◌-◌, Bool, List, [], ◌∷◌, ◌++◌, Option, none, some, if◌then◌else◌, length, ◌==◌,
}
use hpc_relay.Text.{Text}

pub data Piece : Type 0 where
  lit : Text → Piece
  -- [..]*, [..]+ and [..]*?
  star plus lazy : (ℕ → Bool) → Piece
  -- the end of the text
  finish : Piece

-- "".join(ts)
abbrev pub concat : List Text → Text
concat [] = []
concat (t ∷ ts) = t ++ concat ts

-- What each piece matched, and what is left of the text.
abbrev pub Found : Type 0
Found = Option (List Text × Text)

abbrev pub add_capture : Text → Found → Found
add_capture t none = none
add_capture t (some (ts, rest)) = some (t ∷ ts, rest)

-- The first choice that succeeds.
abbrev pub or_else : Found → Found → Found
or_else none other = other
or_else (some r) other = some r

-- As many characters of the class as there are, then fewer; `taken` is what was taken before.
unfoldable pub greedy : (ℕ → Bool) → (Text → Found) → Text → Text → Found
greedy p next taken [] = add_capture taken (next [])
greedy p next taken (c ∷ s) =
    let more = greedy p next (taken ++ c ∷ []) s in
    let stop = add_capture taken (next (c ∷ s)) in if p c then or_else more stop else stop

-- As few as there need be, then more.
unfoldable pub reluctant : (ℕ → Bool) → (Text → Found) → Text → Text → Found
reluctant p next taken [] = add_capture taken (next [])
reluctant p next taken (c ∷ s) =
    let more = reluctant p next (taken ++ c ∷ []) s in
    let stop = add_capture taken (next (c ∷ s)) in if p c then or_else stop more else stop

unfoldable pub literal : Text → (Text → Found) → Text → Found
literal [] next s = next s
literal (c ∷ t) next [] = none
literal (c ∷ t) next (d ∷ s) = if c == d then literal t next s else none

unfoldable pub at_least_one : (ℕ → Bool) → (Text → Found) → Text → Found
unfolding greedy
at_least_one p next [] = none
at_least_one p next (c ∷ s) = if p c then greedy p next (c ∷ []) s else none

unfoldable pub at_end : (Text → Found) → Text → Found
at_end next [] = next []
at_end next (c ∷ s) = none

-- pattern.match(s)
unfoldable pub match : List Piece → Text → Found
unfolding greedy reluctant literal at_least_one at_end
match [] s = some ([], s)
match (lit t ∷ ps) s = add_capture t (literal t (match ps) s)
match (star p ∷ ps) s = greedy p (match ps) [] s
match (plus p ∷ ps) s = at_least_one p (match ps) s
match (lazy p ∷ ps) s = reluctant p (match ps) [] s
match (finish ∷ ps) s = add_capture [] (at_end (match ps) s)

-- The characters behind the first of a match.
abbrev pub behind_first : List Text → ℕ
behind_first ts = length (concat ts) - 1

-- pattern.finditer(s), for a pattern that matches no empty text: the matches from left to right, each
-- behind the one before; the number says how many characters belong to the last one.
unfoldable pub scan : List Piece → ℕ → Text → List (List Text)
unfolding match
scan ps covered [] = []
scan ps (suc covered) (c ∷ s) = scan ps covered s
scan ps zero (c ∷ s) = elim (match ps (c ∷ s)) [
  | none ↦ scan ps zero s
  | some (ts, rest) ↦ ts ∷ scan ps (behind_first ts) s
]

unfoldable pub finditer : List Piece → Text → List (List Text)
unfolding scan
finditer ps s = scan ps zero s

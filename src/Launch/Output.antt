-- ===== src/Launch/Output.antt =====
-- `_head_tail` and `_output_md_section` of extra/launch_slurm.py: the output of a command, cut down for an
-- artifact. The texts are taken to have no lone surrogates, which `encode` refuses.
pub mod Short
use hpc_relay.Base.{
  ℕ, zero, suc, ◌+◌, ◌-◌, Bool, ◌&&◌, List, [], ◌∷◌, ◌++◌, Option, none, some, if◌then◌else◌, leb,
  ltb, length, take,
}
use hpc_relay.Text.{Text, codes}
use hpc_relay.Text.Split.{split_lines, join_with}

-- `_MAX_OUTPUT_BYTES` and `_MAX_OUTPUT_LINES`
abbrev pub max_output_bytes : ℕ
max_output_bytes = 100000

abbrev pub max_output_lines : ℕ
max_output_lines = 100

-- The bytes of a character in UTF-8.
unfoldable pub width : ℕ → ℕ
width c = if ltb c 0x80 then 1 else if ltb c 0x800 then 2 else if ltb c 0x10000 then 3 else 4

-- len(s.encode())
unfoldable pub byte_length : Text → ℕ
unfolding width
byte_length [] = 0
byte_length (c ∷ s) = width c + byte_length s

-- s.encode()[:room].decode(errors="ignore"): a character that is cut is left out.
unfoldable pub clip : ℕ → Text → Text
unfolding width
clip room [] = []
clip room (c ∷ s) =
    let rest = clip (room - width c) s in if leb (width c) room then c ∷ rest else []

-- xs[-n:]
unfoldable pub last_lines : ℕ → List Text → List Text
last_lines n [] = []
last_lines n (t ∷ ts) =
    let rest = last_lines n ts in if leb (length (t ∷ ts)) n then t ∷ ts else rest

unfoldable pub fits : Text → Bool
unfolding byte_length split_lines
fits text =
    leb (length (split_lines text)) max_output_lines && leb (byte_length text) max_output_bytes

abbrev pub marker : Text
marker = codes "\n[... truncated ...]\n"

unfoldable pub head : Text → Text
unfolding clip split_lines join_with
head text =
    clip max_output_bytes (join_with (codes "\n") (take max_output_lines (split_lines text)))

unfoldable pub tail : Text → Text
unfolding clip split_lines join_with last_lines
tail text =
    clip max_output_bytes (join_with (codes "\n") (last_lines max_output_lines (split_lines text)))

unfoldable pub head_tail : Text → Text
unfolding fits head tail
head_tail text = if fits text then text else head text ++ (marker ++ tail text)

section_body : Option Text → Text
unfolding head_tail
section_body none = codes "_(not available)_"
section_body (some []) = codes "_(empty)_"
section_body (some (c ∷ s)) = codes "````\n" ++ (head_tail (c ∷ s) ++ codes "\n````")

unfoldable pub output_md_section : Text → Option Text → Text
unfolding section_body
output_md_section title body =
    codes "### " ++ (title ++ (codes "\n\n" ++ (section_body body ++ codes "\n\n")))

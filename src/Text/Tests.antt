-- ===== src/Text/Tests.antt =====
-- Runs of the text functions.
use hpc_relay.Base.{◌≡◌, refl, [], ◌∷◌, some}
use hpc_relay.Text.{codes}
use hpc_relay.Text.Chars.{is_space}
use hpc_relay.Text.Split.{split_blank, split_lines, partition, strip, replace_pair}

split_runs : split_blank (codes " ab  c\n") ≡ codes "ab" ∷ codes "c" ∷ []
unfolding split_blank
split_runs = refl

lines_run : split_lines (codes "a\r\n\nb\n") ≡ codes "a" ∷ [] ∷ codes "b" ∷ []
unfolding split_lines
lines_run = refl

partition_runs : partition b'|' (codes "12|R|x") ≡ some (codes "12", codes "R|x")
unfolding partition
partition_runs = refl

strip_runs : strip is_space (codes " a b\n") ≡ codes "a b"
unfolding strip is_space
strip_runs = refl

replace_runs : replace_pair b'%' b'j' (codes "17") (codes "o_%j.%%j") ≡ codes "o_17.%17"
unfolding replace_pair
replace_runs = refl

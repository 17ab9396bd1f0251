-- ===== src/Text/Number.antt =====
-- int(s) of a text: blanks around it, a sign, and digits with single underscores between them.
use hpc_relay.Base.{
  ℕ, zero, suc, ◌+◌, ◌*◌, Bool, true, false, [], ◌∷◌, Option, none, some, ℤ, pos, negsuc,
  if◌then◌else◌, ◌==◌,
}
use mathlib.Core.Option
use hpc_relay.Text.Chars.{is_space, is_decimal, digit_value}
use hpc_relay.Text.Split.{strip}
use hpc_relay.Text.{Text}

-- The flag says that a digit stands just before.
digits_value : Bool → ℕ → Text → Option ℕ
digits_value after_digit n [] = if after_digit then some n else none
digits_value after_digit n (c ∷ s) =
    let digit = digits_value true (n * 10 + digit_value c) s in
    let underscore = digits_value false n s in
    if is_decimal c
    then digit
    else if c == b'_'
    then (if after_digit then underscore else none)
    else none

negated : ℕ → ℤ
negated zero = pos 0
negated (suc n) = negsuc n

signed_value : Text → Option ℤ
unfolding negated digits_value is_decimal digit_value
signed_value [] = none
signed_value (c ∷ s) =
    if c == b'-'
    then Option.map negated (digits_value false 0 s)
    else if c == b'+'
    then Option.map pos (digits_value false 0 s)
    else Option.map pos (digits_value false 0 (c ∷ s))

-- int(s); `none` is ValueError.
unfoldable pub int_of : Text → Option ℤ
unfolding strip is_space signed_value
int_of s = signed_value (strip is_space s)

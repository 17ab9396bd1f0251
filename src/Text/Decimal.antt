-- ===== src/Text/Decimal.antt =====
-- str(n) of a number, and int(s) of its digits.
use hpc_relay.Base.{
  ℕ, zero, suc, ◌+◌, ◌-◌, ◌*◌, ◌/◌, ◌%◌, ◌<◌, ◌≡◌, ap, ◌∙◌, [], ◌∷◌, ltb, if◌then◌else◌, arith,
  Bool-cases, inl, inr,
}
use hpc_relay.Text.{Text}

-- The digits of `n` in front of `behind`. The number falls in each round, so `n` rounds are enough.
digits_from : ℕ → ℕ → Text → Text
digits_from zero n behind = behind
digits_from (suc fuel) n behind =
    let rest = digits_from fuel (n / 10) ((b'0' + n % 10) ∷ behind) in
    if ltb n 10 then (b'0' + n) ∷ behind else rest

unfoldable pub decimal : ℕ → Text
unfolding digits_from
decimal n = digits_from (suc n) n []

-- The number that digits stand for, after those that stand for `acc`.
unfoldable pub value_from : ℕ → Text → ℕ
value_from acc [] = acc
value_from acc (c ∷ s) = value_from (acc * 10 + (c - b'0')) s

digits_from-value :
    (fuel n : ℕ) (behind : Text)
    → n < fuel
    → value_from 0 (digits_from fuel n behind) ≡ value_from n behind
unfolding digits_from value_from
digits_from-value zero n behind h = absurd (omega arith)
digits_from-value (suc fuel) n behind h = elim (Bool-cases (ltb n 10)) [
  | inl small ↦ rw small (ap (λ k. value_from k behind) (ground arith))
  | inr large ↦ rw large (
      digits_from-value fuel (n / 10) _ (ground arith)
      ∙ ap (λ k. value_from k behind) (ground arith))
]

-- Reading the digits of a number gives the number.
pub value_from-decimal : (n : ℕ) → value_from 0 (decimal n) ≡ n
unfolding decimal value_from
value_from-decimal n = digits_from-value (suc n) n [] (omega arith)

-- ===== src/Launch/Output/Short.antt =====
-- That what `_head_tail` gives is short, and is the text where that is short.
use hpc_relay.Base.{
  ℕ, zero, suc, ◌+◌, ◌-◌, ◌≤◌, ◌≡◌, refl, inl, inr, true, false, List, [], ◌∷◌, ◌++◌, leb, length,
  take, ap, ◌<◌, ◌⊎◌, arith, Bool-cases,
}
use hpc_relay.Text.{Text, codes}
use hpc_relay.Text.Split.{join_with, split_lines}
use hpc_relay.Launch.Output.{
  max_output_bytes, width, byte_length, clip, last_lines, max_output_lines, fits, marker, head,
  tail, head_tail,
}

byte_length-append : (s t : Text) → byte_length (s ++ t) ≡ byte_length s + byte_length t
unfolding byte_length
byte_length-append [] t = omega arith
byte_length-append (c ∷ s) t = omega (arith, byte_length-append s t)

-- What is clipped fits the room, and begins the text.
clip_fits : (room : ℕ) (s : Text) → byte_length (clip room s) ≤ room
unfolding clip byte_length
clip_fits room [] = omega arith
clip_fits room (c ∷ s) = ground (arith, clip_fits (room - width c) s)

clip_starts : (room : ℕ) (s : Text) → (rest : Text) × (s ≡ clip room s ++ rest)
unfolding clip
clip_starts room [] = ([], refl)
clip_starts room (c ∷ s) = elim (Bool-cases (leb (width c) room)) [
  | inl y ↦ let (rest, e) = clip_starts (room - width c) s in (rest, rw y (ground (arith, e)))
  | inr n ↦ (c ∷ s, rw n refl)
]

take_all : (n : ℕ) (ts : List Text) → length ts ≤ n → take n ts ≡ ts
take_all zero [] h = refl
take_all zero (t ∷ ts) h = absurd (omega arith)
take_all (suc n) [] h = refl
take_all (suc n) (t ∷ ts) h = ap (λ l. t ∷ l) (take_all n ts (omega arith))

last_lines_all : (n : ℕ) (ts : List Text) → length ts ≤ n → last_lines n ts ≡ ts
unfolding last_lines
last_lines_all n [] h = refl
last_lines_all n (t ∷ ts) h = let y : leb (length (t ∷ ts)) n ≡ true = ground arith in rw y refl

-- The first and the last lines, as one text.
abbrev pub first_part : Text → Text
first_part text = join_with (codes "\n") (take max_output_lines (split_lines text))

abbrev pub last_part : Text → Text
last_part text = join_with (codes "\n") (last_lines max_output_lines (split_lines text))

-- The text itself, where it is short; or beginnings of its first and of its last lines, with the marker
-- between them, which are the same where it has few lines.
pub data ShortEnd (text : Text) : Text → Type 0 where
  whole :
      length (split_lines text) ≤ max_output_lines
      → byte_length text ≤ max_output_bytes
      → ShortEnd text text
  cut :
      (h t more_head more_tail : Text)
      → (max_output_lines < length (split_lines text)) ⊎ (max_output_bytes < byte_length text)
      → first_part text ≡ h ++ more_head
      → last_part text ≡ t ++ more_tail
      → (length (split_lines text) ≤ max_output_lines → t ≡ h)
      → ShortEnd text (h ++ (marker ++ t))

too_long :
    (text : Text)
    → fits text ≡ false
    → (max_output_lines < length (split_lines text)) ⊎ (max_output_bytes < byte_length text)
unfolding fits
too_long text h = elim (Bool-cases (leb (length (split_lines text)) max_output_lines)) [
  | inl y ↦ inr (ground (arith, y))
  | inr n ↦ inl (ground (arith, n))
]

tail-eq-head : (text : Text) → length (split_lines text) ≤ max_output_lines → tail text ≡ head text
unfolding head tail
tail-eq-head text h = rw (
  take_all max_output_lines (split_lines text) h,
  last_lines_all max_output_lines (split_lines text) h,
)

cut-ShortEnd :
    (text : Text) → fits text ≡ false → ShortEnd text (head text ++ (marker ++ tail text))
unfolding head tail
cut-ShortEnd text n =
    let (more_head, p) = clip_starts max_output_bytes (first_part text) in
    let (more_tail, q) = clip_starts max_output_bytes (last_part text) in
    cut (head text) (tail text) more_head more_tail (too_long text n) p q (tail-eq-head text)

cut_bytes : (text : Text) → byte_length (head text ++ (marker ++ tail text)) ≤ 200021
unfolding head tail byte_length
cut_bytes text = omega (
  arith,
  byte_length-append (head text) (marker ++ tail text),
  byte_length-append marker (tail text),
  clip_fits max_output_bytes (first_part text),
  clip_fits max_output_bytes (last_part text),
)

-- `_head_tail` gives the text itself where it has at most 100 lines and 100,000 bytes; of any other text
-- it gives the beginning of its first 100 lines, the marker, and the beginning of its last 100, which is
-- the same again where it has no more than 100 lines. What it gives has at most 200,021 bytes.
pub head_tail-ShortEnd :
    (text : Text) → ShortEnd text (head_tail text) × (byte_length (head_tail text) ≤ 200021)
unfolding head_tail fits
head_tail-ShortEnd text = elim (Bool-cases (fits text)) [
  | inl y ↦ rw y (whole (fits_lines text y) (fits_bytes text y), omega (arith, fits_bytes text y))
  | inr n ↦ rw n (cut-ShortEnd text n, cut_bytes text)
]
  where
    fits_lines : (s : Text) → fits s ≡ true → length (split_lines s) ≤ max_output_lines
    fits_lines s y = ground (arith, y)

    fits_bytes : (s : Text) → fits s ≡ true → byte_length s ≤ max_output_bytes
    fits_bytes s y = ground (arith, y)

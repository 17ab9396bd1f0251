-- ===== src/Text/Regex/Sound.antt =====
-- That a pattern matches exactly where a text can be split into parts that fit its pieces.
use hpc_relay.Base.{
  ℕ, ◌≡◌, ◌≢◌, refl, sym, ap, ◌∙◌, inl, inr, Bool, true, List, [], ◌∷◌, ◌++◌, none, some, all,
  append-nil, arith, append_assoc, Bool-cases, ◌==◌,
}
use hpc_relay.Text.{Text}
use hpc_relay.Text.Regex.{
  Piece, lit, star, plus, lazy, finish, Found, concat, add_capture, or_else, greedy, reluctant,
  literal, at_least_one, at_end, match,
}

-- The part of a piece, in front of the rest of the text.
abbrev pub Fits : Piece → Text → Text → Type 0
Fits (lit u) t rest = t ≡ u
Fits (star p) t rest = all p t ≡ true
Fits (plus p) t rest = (all p t ≡ true) × (t ≢ [])
Fits (lazy p) t rest = all p t ≡ true
Fits finish t rest = (t ≡ []) × (rest ≡ [])

-- A text in parts that fit the pieces, in front of what is left.
pub data Splits : List Piece → List Text → Text → Text → Type 0 where
  over : {s rest : Text} → s ≡ rest → Splits [] [] s rest
  part :
      {p : Piece} {ps : List Piece} {t : Text} {ts : List Text} {s s' rest : Text}
      → Fits p t s'
      → s ≡ t ++ s'
      → Splits ps ts s' rest
      → Splits (p ∷ ps) (t ∷ ts) s rest

-- The parts, and what is left, make the text.
pub Splits-concat :
    {ps : List Piece} {ts : List Text} {s rest : Text} → Splits ps ts s rest → s ≡ concat ts ++ rest
Splits-concat (over e) = e
Splits-concat (part {t = t} {ts = ts} {rest = rest} f e r) =
    e ∙ ap (λ v. t ++ v) (Splits-concat r) ∙ sym (append_assoc t (concat ts) rest)

-- A found match that splits the text.
pub data Good (ps : List Piece) (s : Text) : Found → Type 0 where
  nothing : Good ps s none
  good : (ts : List Text) (rest : Text) → Splits ps ts s rest → Good ps s (some (ts, rest))

Good-or_else :
    {ps : List Piece} {s : Text} (a b : Found) → Good ps s a → Good ps s b → Good ps s (or_else a b)
Good-or_else none b ga gb = gb
Good-or_else (some r) b ga gb = ga

-- The part of one piece, before a good match of the others.
Good-add :
    {p : Piece} {ps : List Piece} {s : Text} (t s' : Text) (r : Found)
    → Fits p t s'
    → s ≡ t ++ s'
    → Good ps s' r
    → Good (p ∷ ps) s (add_capture t r)
Good-add t s' _ f e nothing = nothing
Good-add t s' _ f e (good ts rest h) = good (t ∷ ts) rest (part f e h)

regroup :
    (taken s : Text) (c : ℕ) (whole : Text)
    → whole ≡ taken ++ (c ∷ s)
    → whole ≡ (taken ++ c ∷ []) ++ s
regroup taken s c whole e = e ∙ sym (append_assoc taken (c ∷ []) s)

module _ {q : Piece} {ps : List Piece} (p : ℕ → Bool) (next : Text → Found)
    (good_next : (s : Text) → Good ps s (next s)) (Took : Text → Type 0)
    (fits : (t rest : Text) → Took t → Fits q t rest)
    (more : (t : Text) (c : ℕ) → p c ≡ true → Took t → Took (t ++ c ∷ [])) where
  stop-Good :
      (taken s whole : Text)
      → Took taken
      → whole ≡ taken ++ s
      → Good (q ∷ ps) whole (add_capture taken (next s))
  stop-Good taken s whole h e = Good-add taken s (next s) (fits taken s h) e (good_next s)

  greedy-Good :
      (taken s whole : Text)
      → Took taken
      → whole ≡ taken ++ s
      → Good (q ∷ ps) whole (greedy p next taken s)
  unfolding greedy
  greedy-Good taken [] whole h e = stop-Good taken [] whole h e
  greedy-Good taken (c ∷ s) whole h e = elim (Bool-cases (p c)) [
    | inl y ↦ rw y (
        Good-or_else (greedy p next (taken ++ c ∷ []) s) (add_capture taken (next (c ∷ s)))
          (greedy-Good (taken ++ c ∷ []) s whole (more taken c y h) (regroup taken s c whole e))
          (stop-Good taken (c ∷ s) whole h e))
    | inr n ↦ rw n (stop-Good taken (c ∷ s) whole h e)
  ]

  reluctant-Good :
      (taken s whole : Text)
      → Took taken
      → whole ≡ taken ++ s
      → Good (q ∷ ps) whole (reluctant p next taken s)
  unfolding reluctant
  reluctant-Good taken [] whole h e = stop-Good taken [] whole h e
  reluctant-Good taken (c ∷ s) whole h e = elim (Bool-cases (p c)) [
    | inl y ↦ rw y (
        Good-or_else (add_capture taken (next (c ∷ s))) (reluctant p next (taken ++ c ∷ []) s)
          (stop-Good taken (c ∷ s) whole h e)
          (reluctant-Good (taken ++ c ∷ []) s whole (more taken c y h) (regroup taken s c whole e)))
    | inr n ↦ rw n (stop-Good taken (c ∷ s) whole h e)
  ]

all-append_one :
    (p : ℕ → Bool) (t : Text) (c : ℕ) → p c ≡ true → all p t ≡ true → all p (t ++ c ∷ []) ≡ true
all-append_one p [] c y h = ground arith
all-append_one p (d ∷ t) c y h = ground (arith, all-append_one p t c y)

append_one-ne-nil : (t : Text) (c : ℕ) → (t ++ c ∷ []) ≢ []
append_one-ne-nil [] c e = ground arith
append_one-ne-nil (d ∷ t) c e = ground arith

module _ {ps : List Piece} (next : Text → Found) (good_next : (s : Text) → Good ps s (next s)) where
  -- A literal, of which `before` is matched.
  literal-Good :
      (u before t s whole : Text)
      → u ≡ before ++ t
      → whole ≡ before ++ s
      → Good (lit u ∷ ps) whole (add_capture u (literal t next s))
  unfolding literal
  literal-Good u before [] s whole eu e =
      let same_part : u ≡ before = eu ∙ append-nil before in
      Good-add u s (next s) refl (e ∙ ap (λ v. v ++ s) (sym same_part)) (good_next s)
  literal-Good u before (c ∷ t) [] whole eu e = nothing
  literal-Good u before (c ∷ t) (d ∷ s) whole eu e = elim (Bool-cases (c == d)) [
    | inl y ↦
        let is : c ≡ d = ground (arith, y) in
        rw y (
          literal-Good u (before ++ c ∷ []) t s whole (eu ∙ sym (append_assoc before (c ∷ []) t))
            (e ∙ ap (λ k. before ++ (k ∷ s)) (sym is) ∙ sym (append_assoc before (c ∷ []) s)))
    | inr n ↦ rw n nothing
  ]

  at_least_one-Good : (p : ℕ → Bool) (s : Text) → Good (plus p ∷ ps) s (at_least_one p next s)
  unfolding at_least_one
  at_least_one-Good p [] = nothing
  at_least_one-Good p (c ∷ s) = elim (Bool-cases (p c)) [
    | inl y ↦ rw y (
        greedy-Good p next good_next (λ t. (all p t ≡ true) × (t ≢ [])) (λ t rest h. h)
          (λ t d z h. (all-append_one p t d z h.0, append_one-ne-nil t d)) (c ∷ []) s (c ∷ s)
          (ground (arith, y), λ e. ground arith) refl)
    | inr n ↦ rw n nothing
  ]

  at_end-Good : (s : Text) → Good (finish ∷ ps) s (add_capture [] (at_end next s))
  unfolding at_end
  at_end-Good [] = Good-add [] [] (next []) (refl, refl) refl (good_next [])
  at_end-Good (c ∷ s) = nothing

-- What is found splits the text.
pub match-Good : (ps : List Piece) (s : Text) → Good ps s (match ps s)
unfolding match
match-Good [] s = good [] s (over refl)
match-Good (lit u ∷ ps) s = literal-Good (match ps) (match-Good ps) u [] u s s refl refl
match-Good (star p ∷ ps) s =
    greedy-Good p (match ps) (match-Good ps) (λ t. all p t ≡ true) (λ t rest h. h)
      (λ t c y h. all-append_one p t c y h) [] s s refl refl
match-Good (plus p ∷ ps) s = at_least_one-Good (match ps) (match-Good ps) p s
match-Good (lazy p ∷ ps) s =
    reluctant-Good p (match ps) (match-Good ps) (λ t. all p t ≡ true) (λ t rest h. h)
      (λ t c y h. all-append_one p t c y h) [] s s refl refl
match-Good (finish ∷ ps) s = at_end-Good (match ps) (match-Good ps) s

-- ===== src/Text/Regex/Complete.antt =====
-- That a match is found wherever there is one.
use hpc_relay.Base.{
  ℕ, ◌≡◌, ◌≢◌, refl, inl, inr, Bool, true, List, [], ◌∷◌, ◌++◌, none, some, all, arith, Bool-cases,
  ◌==◌,
}
use hpc_relay.Text.{Text}
use hpc_relay.Text.Regex.{
  Piece, lit, star, plus, lazy, finish, Found, add_capture, or_else, greedy, reluctant, literal,
  at_least_one, at_end, match,
}
use hpc_relay.Text.Regex.Sound.{Splits, over, part}

pub data Hit : Found → Type 0 where
  hit : (ts : List Text) (rest : Text) → Hit (some (ts, rest))

Hit-add : (t : Text) (r : Found) → Hit r → Hit (add_capture t r)
Hit-add t _ (hit ts rest) = hit (t ∷ ts) rest

Hit-left : (a b : Found) → Hit a → Hit (or_else a b)
Hit-left _ b (hit ts rest) = hit ts rest

Hit-right : (a b : Found) → Hit b → Hit (or_else a b)
Hit-right none b h = h
Hit-right (some (ts, rest)) b h = hit ts rest

module _ (p : ℕ → Bool) (next : Text → Found) where
  -- To stop at once is one of the choices.
  greedy-stop : (taken s : Text) → Hit (next s) → Hit (greedy p next taken s)
  unfolding greedy
  greedy-stop taken [] h = Hit-add taken (next []) h
  greedy-stop taken (c ∷ s) h = elim (Bool-cases (p c)) [
    | inl y ↦
        rw y (Hit-right (greedy p next (taken ++ c ∷ []) s) _ (Hit-add taken (next (c ∷ s)) h))
    | inr n ↦ rw n (Hit-add taken (next (c ∷ s)) h)
  ]

  greedy-Hit :
      (t s taken : Text) → all p t ≡ true → Hit (next s) → Hit (greedy p next taken (t ++ s))
  unfolding greedy
  greedy-Hit [] s taken fits h = greedy-stop taken s h
  greedy-Hit (c ∷ t) s taken fits h =
      let y : p c ≡ true = ground (arith, fits) in
      rw y (
        Hit-left (greedy p next (taken ++ c ∷ []) (t ++ s)) _
          (greedy-Hit t s (taken ++ c ∷ []) (ground (arith, fits)) h))

  reluctant-stop : (taken s : Text) → Hit (next s) → Hit (reluctant p next taken s)
  unfolding reluctant
  reluctant-stop taken [] h = Hit-add taken (next []) h
  reluctant-stop taken (c ∷ s) h = elim (Bool-cases (p c)) [
    | inl y ↦ rw y (Hit-left (add_capture taken (next (c ∷ s))) _ (Hit-add taken (next (c ∷ s)) h))
    | inr n ↦ rw n (Hit-add taken (next (c ∷ s)) h)
  ]

  reluctant-Hit :
      (t s taken : Text) → all p t ≡ true → Hit (next s) → Hit (reluctant p next taken (t ++ s))
  unfolding reluctant
  reluctant-Hit [] s taken fits h = reluctant-stop taken s h
  reluctant-Hit (c ∷ t) s taken fits h =
      let y : p c ≡ true = ground (arith, fits) in
      rw y (
        Hit-right (add_capture taken (next (c ∷ (t ++ s)))) _
          (reluctant-Hit t s (taken ++ c ∷ []) (ground (arith, fits)) h))

  at_least_one-Hit :
      (t s : Text) → all p t ≡ true → t ≢ [] → Hit (next s) → Hit (at_least_one p next (t ++ s))
  unfolding at_least_one
  at_least_one-Hit [] s fits full h = absurd (full refl)
  at_least_one-Hit (c ∷ t) s fits full h =
      let y : p c ≡ true = ground (arith, fits) in
      rw y (greedy-Hit t s (c ∷ []) (ground (arith, fits)) h)

literal-Hit : (next : Text → Found) (t s : Text) → Hit (next s) → Hit (literal t next (t ++ s))
unfolding literal
literal-Hit next [] s h = h
literal-Hit next (c ∷ t) s h =
    let y : (c == c) ≡ true = ground arith in rw y (literal-Hit next t s h)

-- A text that can be split into parts that fit the pieces is matched.
pub match-Hit :
    (ps : List Piece) {ts : List Text} {s rest : Text} → Splits ps ts s rest → Hit (match ps s)
unfolding match
match-Hit [] (over {s} e) = hit [] s
match-Hit (lit u ∷ ps) (part {t = t} {s' = s'} f e r) =
    rw (e, f) (Hit-add u _ (literal-Hit (match ps) u s' (match-Hit ps r)))
match-Hit (star p ∷ ps) (part {t = t} {s' = s'} f e r) =
    rw e (greedy-Hit p (match ps) t s' [] f (match-Hit ps r))
match-Hit (plus p ∷ ps) (part {t = t} {s' = s'} f e r) =
    rw e (at_least_one-Hit p (match ps) t s' f.0 f.1 (match-Hit ps r))
match-Hit (lazy p ∷ ps) (part {t = t} {s' = s'} f e r) =
    rw e (reluctant-Hit p (match ps) t s' [] f (match-Hit ps r))
match-Hit (finish ∷ ps) (part {s' = s'} f e r) =
    rw (e, f.0) (Hit-add [] _ (ends s' f.1 (match-Hit ps r)))
  where
    ends : (v : Text) → v ≡ [] → Hit (match ps v) → Hit (at_end (match ps) v)
    ends [] q h = h
    ends (c ∷ v) q h = absurd (ground arith)

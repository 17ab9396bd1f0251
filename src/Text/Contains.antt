-- ===== src/Text/Contains.antt =====
-- What `startswith` and `in` mean.
use hpc_relay.Base.{
  ◌≡◌, refl, ap, ◌∙◌, ◌↔◌, inl, inr, true, ◌==◌, ==_iff, &&-eq_true, Bool-cases, [], ◌∷◌, ◌++◌,
  arith,
}
use hpc_relay.Text.{Text}
use hpc_relay.Text.Split.{starts_with, contains}

starts_with-parts : (s p : Text) → starts_with s p ≡ true → (after : Text) × (s ≡ p ++ after)
unfolding starts_with
starts_with-parts s [] h = (s, refl)
starts_with-parts [] (d ∷ p) h = cc
starts_with-parts (c ∷ s) (d ∷ p) h =
    let (same_head, rest) = &&-eq_true (c == d) (starts_with s p) h in
    let (after, e) = starts_with-parts s p rest in
    let q = (==_iff c d).0 same_head in (after, cc (q, e))

starts_with-append : (p after : Text) → starts_with (p ++ after) p ≡ true
unfolding starts_with
starts_with-append [] after = refl
starts_with-append (c ∷ p) after =
    let rest = starts_with-append p after in let q = (==_iff c c).1 refl in ground (arith, rest)

-- `part` stands in `s`.
pub record Occurs (part s : Text) : Type 0 where
  pub before : Text
  pub after : Text
  pub parts : s ≡ before ++ (part ++ after)

contains-Occurs : (part s : Text) → contains part s ≡ true → Occurs part s
unfolding contains
contains-Occurs part [] h =
    let (after, e) = starts_with-parts [] part h in record { before = []; after = after; parts = e }
contains-Occurs part (c ∷ s) h = elim (Bool-cases (starts_with (c ∷ s) part)) [
  | inl q ↦
      let (after, e) = starts_with-parts (c ∷ s) part q in
      record { before = []; after = after; parts = e }
  | inr q ↦ shift (contains-Occurs part s (ground (arith, h, q)))
]
  where
    shift : Occurs part s → Occurs part (c ∷ s)
    shift o = record { before = c ∷ o.before; after = o.after; parts = ap (λ t. c ∷ t) o.parts }

starts_with-contains : (part s : Text) → starts_with s part ≡ true → contains part s ≡ true
unfolding contains
starts_with-contains part [] h = h
starts_with-contains part (c ∷ s) h = rw h refl

contains-behind : (part before after : Text) → contains part (before ++ (part ++ after)) ≡ true
unfolding contains
contains-behind part [] after =
    starts_with-contains part (part ++ after) (starts_with-append part after)
contains-behind part (c ∷ before) after =
    let rest = contains-behind part before after in ground (arith, rest)

pub contains_iff : (part s : Text) → (contains part s ≡ true) ↔ Occurs part s
contains_iff part s = (
  contains-Occurs part s,
  λ o. ap (contains part) o.parts ∙ contains-behind part o.before o.after,
)

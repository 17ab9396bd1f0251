-- ===== src/Text/Regex/Scan.antt =====
-- What `finditer` gives: matches in the text, and at least one where there is one.
use hpc_relay.Base.{
  ℕ, zero, suc, ◌≡◌, refl, ap, sym, ◌∙◌, List, [], ◌∷◌, ◌++◌, none, some, arith, In, at_head,
  in_tail,
}
use mathlib.Core.Path.{subst}
use hpc_relay.Text.{Text}
use hpc_relay.Text.Regex.{Piece, Found, match, behind_first, scan}
use hpc_relay.Text.Regex.Sound.{Splits, Good, good, match-Good}

-- A match that begins somewhere in the text.
pub data Occurs (ps : List Piece) (ts : List Text) (s : Text) : Type 0 where
  occurs : (before s' rest : Text) → s ≡ before ++ s' → Splits ps ts s' rest → Occurs ps ts s

module _ {ps : List Piece} where
  Occurs-later : {ts : List Text} {s : Text} (c : ℕ) → Occurs ps ts s → Occurs ps ts (c ∷ s)
  Occurs-later c (occurs before s' rest e h) = occurs (c ∷ before) s' rest (ap (λ v. c ∷ v) e) h

module _ (ps : List Piece) where
  -- What the scan does at a place that is not covered.
  abbrev pub at_place : Text → Found → List (List Text)
  at_place s none = scan ps zero s
  at_place s (some (ts, rest)) = ts ∷ scan ps (behind_first ts) s

  scan-at_place : (c : ℕ) (s : Text) → scan ps zero (c ∷ s) ≡ at_place s (match ps (c ∷ s))
  unfolding scan
  scan-at_place c s = go (match ps (c ∷ s))
    where
      go :
          (r : Found)
          → (elim r as (λ _. List (List Text)) [
            | none ↦ scan ps zero s
            | some (ts, rest) ↦ ts ∷ scan ps (behind_first ts) s
          ])
            ≡ at_place s r
      go none = refl
      go (some (ts, rest)) = refl

  at_place-Occurs :
      (c : ℕ) (s : Text) (ts : List Text) (r : Found)
      → Good ps (c ∷ s) r
      → ((n : ℕ) → In ts (scan ps n s) → Occurs ps ts s)
      → In ts (at_place s r)
      → Occurs ps ts (c ∷ s)
  at_place-Occurs c s ts none g later h = Occurs-later c (later zero h)
  at_place-Occurs c s ts (some (us, rest)) (good _ _ m) later (at_head e) =
      rw e (occurs [] (c ∷ s) rest refl m)
  at_place-Occurs c s ts (some (us, rest)) g later (in_tail h) =
      Occurs-later c (later (behind_first us) h)

  -- What is found occurs in the text.
  pub scan-Occurs :
      (covered : ℕ) (s : Text) (ts : List Text) → In ts (scan ps covered s) → Occurs ps ts s
  unfolding scan
  scan-Occurs covered [] ts h = elim h [ ]
  scan-Occurs (suc covered) (c ∷ s) ts h = Occurs-later c (scan-Occurs covered s ts h)
  scan-Occurs zero (c ∷ s) ts h =
      at_place-Occurs c s ts (match ps (c ∷ s)) (match-Good ps (c ∷ s)) (λ n. scan-Occurs n s ts)
        (subst (λ l. In ts l) (scan-at_place c s) h)

  at_place-nil : (s : Text) (r : Found) → at_place s r ≡ [] → (r ≡ none) × (scan ps zero s ≡ [])
  at_place-nil s none h = (refl, h)
  at_place-nil s (some (ts, rest)) h = absurd (ground arith)

  -- Where nothing is found, no part of the text matches.
  pub scan-nil :
      (before : Text) (c : ℕ) (s : Text)
      → scan ps zero (before ++ (c ∷ s)) ≡ []
      → match ps (c ∷ s) ≡ none
  scan-nil [] c s h = (at_place-nil s (match ps (c ∷ s)) (sym (scan-at_place c s) ∙ h)).0
  scan-nil (d ∷ before) c s h =
      let rest : Text = before ++ (c ∷ s) in
      scan-nil before c s
        (at_place-nil rest (match ps (d ∷ rest)) (sym (scan-at_place d rest) ∙ h)).1

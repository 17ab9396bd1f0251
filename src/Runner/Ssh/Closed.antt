-- ===== src/Runner/Ssh/Closed.antt =====
-- `is_connection_closed`, and the runner that asks it.
use hpc_relay.Base.{
  ◌≡◌, refl, ap, ◌∙◌, sym, ◌↔◌, ◌⊎◌, inl, inr, Bool, true, Bool-cases, List, [], ◌∷◌, any, ℤ, pos,
  negsuc, arith, In, at_head, in_tail,
}
use hpc_relay.Runner.Ssh.{closed_phrases, is_closed_code, error_head, is_connection_closed}
use hpc_relay.Runner.Types.{CommandResult}
use hpc_relay.Text.{Text}
use hpc_relay.Text.Contains.{Occurs, contains_iff}
use hpc_relay.Text.Split.{contains}

module _ {A : Type 0} (p : A → Bool) where
  any-In : (xs : List A) → any p xs ≡ true → (x : A) × (In x xs × (p x ≡ true))
  any-In [] h = cc
  any-In (y ∷ xs) h = elim (Bool-cases (p y)) [
    | inl q ↦ (y, (at_head refl, q))
    | inr q ↦ let (x, (i, e)) = any-In xs (rw q at h) in (x, (in_tail i, e))
  ]

  In-any : (x : A) (xs : List A) → In x xs → p x ≡ true → any p xs ≡ true
  In-any x [] i h = elim i [ ]
  In-any x (y ∷ xs) (at_head e) h = rw (ap p (sym e) ∙ h) refl
  In-any x (y ∷ xs) (in_tail i) h = let rest = In-any x xs i h in ground (arith, rest)

-- The exit codes -1 and 255.
abbrev pub IsClosedCode : ℤ → Type 0
IsClosedCode code = (code ≡ negsuc 0) ⊎ (code ≡ pos 255)

is_closed_code_iff : (code : ℤ) → (is_closed_code code ≡ true) ↔ IsClosedCode code
unfolding is_closed_code
is_closed_code_iff (pos n) = ground arith
is_closed_code_iff (negsuc n) = ground arith

-- A phrase of the list stands in the first five lines of the error output, whatever its case.
pub record HasPhrase (stderr : Text) : Type 0 where
  pub phrase : Text
  pub listed : In phrase closed_phrases
  pub occurs : Occurs phrase (error_head stderr)

phrase_iff :
    (stderr : Text)
    → (any (λ phrase. contains phrase (error_head stderr)) closed_phrases ≡ true) ↔ HasPhrase stderr
phrase_iff stderr = (to, from)
  where
    to :
        any (λ phrase. contains phrase (error_head stderr)) closed_phrases ≡ true → HasPhrase stderr
    to h =
        let (phrase, (i, e)) =
          any-In (λ phrase. contains phrase (error_head stderr)) closed_phrases h in
        record {
          phrase = phrase;
          listed = i;
          occurs = (contains_iff phrase (error_head stderr)).0 e;
        }

    from :
        HasPhrase stderr → any (λ phrase. contains phrase (error_head stderr)) closed_phrases ≡ true
    from h =
        In-any (λ phrase. contains phrase (error_head stderr)) h.phrase closed_phrases h.listed
          ((contains_iff h.phrase (error_head stderr)).1 h.occurs)

-- A result is taken for a lost connection exactly when its exit code is -1 or 255, or one of the
-- listed phrases stands in the first five lines of its error output. Its output has no influence.
pub is_connection_closed_iff :
    (result : CommandResult)
    → (is_connection_closed result ≡ true)
      ↔ (IsClosedCode result.return_code ⊎ HasPhrase result.stderr)
unfolding is_connection_closed
is_connection_closed_iff result = (to, from)
  where
    to :
        is_connection_closed result ≡ true
        → IsClosedCode result.return_code ⊎ HasPhrase result.stderr
    to h = elim (Bool-cases (is_closed_code result.return_code)) [
      | inl c ↦ inl ((is_closed_code_iff result.return_code).0 c)
      | inr c ↦ inr ((phrase_iff result.stderr).0 (rw c at h))
    ]

    from :
        IsClosedCode result.return_code ⊎ HasPhrase result.stderr
        → is_connection_closed result ≡ true
    from (inl c) = rw ((is_closed_code_iff result.return_code).1 c) refl
    from (inr h) = elim (Bool-cases (is_closed_code result.return_code)) [
      | inl c ↦ rw c refl
      | inr c ↦ rw c ((phrase_iff result.stderr).1 h)
    ]

-- ===== src/Shell/HomePath.antt =====
-- Which paths keep a tilde prefix under `quote_path`.
use mathlib.Core.Path.{subst}
use hpc_relay.Base.{
  ℕ, ◌≡◌, refl, sym, ap, ◌⊎◌, inl, inr, true, false, [], ◌∷◌, ◌++◌, some, arith, all, ◌==◌,
  Bool-cases, ==_iff,
}
use hpc_relay.Shell.Chars.{is_login_char}
use hpc_relay.Shell.Quote.{split_login, quote_path}
use hpc_relay.Shell.Reader.{tilde, ShellWord, literal, word, start, tokens}
use hpc_relay.Shell.PathWord.{tilde_word, path_word, split_login_parts, quote_path-ReadsAs}
use hpc_relay.Text.{Text}

-- What may stand behind a tilde prefix: nothing, or a slash.
abbrev pub EndsPrefix : Text → Type 0
EndsPrefix [] = Unit
EndsPrefix (c ∷ s) = c ≡ b'/'

pub split_login-append :
    (user rest : Text)
    → all is_login_char user ≡ true
    → EndsPrefix rest
    → split_login (user ++ rest) ≡ (user, rest)
unfolding split_login
split_login-append [] [] h e = refl
split_login-append [] (c ∷ rest) h e = ground arith
split_login-append (u ∷ user) rest h e = ground (arith, split_login-append user rest)

tilde_word-literal : (s user rest : Text) → ¬ EndsPrefix rest → tilde_word s user rest ≡ literal s
unfolding tilde_word
tilde_word-literal s user [] h = absurd (h tt)
tilde_word-literal s user (c ∷ rest) h = ground (arith, ==_iff c b'/')

-- `s` is a tilde prefix, alone or in front of a slash.
pub record IsHomePath (s : Text) : Type 0 where
  pub user : Text
  pub rest : Text
  pub parts : s ≡ b'~' ∷ (user ++ rest)
  pub chars : all is_login_char user ≡ true
  pub ends : EndsPrefix rest

not-IsHomePath_ne : (c : ℕ) (s : Text) → (c == b'~') ≡ false → ¬ IsHomePath (c ∷ s)
not-IsHomePath_ne c s e h = let p = h.parts in ground arith

not-IsHomePath_end : (s : Text) → ¬ EndsPrefix (split_login s).1 → ¬ IsHomePath (b'~' ∷ s)
not-IsHomePath_end s n h =
    let p : s ≡ h.user ++ h.rest = cc h.parts in
    n (
      subst (λ (t : Text). EndsPrefix (split_login t).1) (sym p)
        (rw (split_login-append h.user h.rest h.chars h.ends) h.ends))

-- How a path is to be read: a home path by its prefix, any other literally.
pub data PathReads (s : Text) : ShellWord → Type 0 where
  home : (h : IsHomePath s) → PathReads s (tilde h.user ∷ literal h.rest)
  plain : ¬ IsHomePath s → PathReads s (literal s)

EndsPrefix-cases : (s : Text) → EndsPrefix s ⊎ (¬ EndsPrefix s)
EndsPrefix-cases [] = inl tt
EndsPrefix-cases (c ∷ s) = elim (Bool-cases (c == b'/')) [
  | inl e ↦ inl ((==_iff c b'/').0 e)
  | inr e ↦ inr (λ p. ground arith)
]

IsHomePath-split : (s : Text) → EndsPrefix (split_login s).1 → IsHomePath (b'~' ∷ s)
IsHomePath-split s ends =
    let (parts, chars) = split_login_parts s in
    record {
      user = (split_login s).0;
      rest = (split_login s).1;
      parts = ap (λ (t : Text). b'~' ∷ t) parts;
      chars = chars;
      ends = ends;
    }

tilde_word_home :
    (s user rest : Text) → EndsPrefix rest → tilde_word s user rest ≡ tilde user ∷ literal rest
unfolding tilde_word
tilde_word_home s user [] h = refl
tilde_word_home s user (c ∷ rest) h = rw h

path_word-PathReads : (s : Text) → PathReads s (path_word s)
unfolding path_word IsHomePath-split split_login
path_word-PathReads [] = plain (λ h. cc h.parts)
path_word-PathReads (c ∷ s) = elim (Bool-cases (c == b'~')) [
  | inr e ↦ rw e (plain (not-IsHomePath_ne c s e))
  | inl e ↦
      rw (e, (==_iff c b'~').0 e)
        (elim (EndsPrefix-cases (split_login s).1) [
          | inl ends ↦
              rw (tilde_word_home (b'~' ∷ s) (split_login s).0 (split_login s).1 ends)
                (home (IsHomePath-split s ends))
          | inr n ↦
              rw (tilde_word-literal (b'~' ∷ s) (split_login s).0 (split_login s).1 n)
                (plain (not-IsHomePath_end s n))
        ])
]

-- A shell reads the quoted path as one word. A leading `~` or `~user`, with nothing or a slash behind
-- it, is a tilde prefix there, and what follows it is literal. Any other path is literal throughout.
pub tokens-quote_path :
    (s : Text) → (w : ShellWord) × PathReads s w × (tokens (quote_path s) ≡ some (word w ∷ []))
unfolding tokens
tokens-quote_path s =
    (path_word s, path_word-PathReads s, (quote_path-ReadsAs s).at_end start refl refl)

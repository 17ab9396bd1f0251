-- ===== src/Shell/PathWord.antt =====
-- What a shell makes of `quote_path`: a tilde prefix is left to it, all else is literal.
use hpc_relay.Base.{
  ◌≡◌, refl, sym, ◌∙◌, ap, inl, inr, true, [], ◌∷◌, ◌++◌, some, append-nil, append_assoc, arith,
  all, ◌==◌, if◌then◌else◌, Bool-cases, ==_iff,
}
use mathlib.Core.Path.{subst}
use hpc_relay.Shell.Chars.{is_login_char}
use hpc_relay.Shell.Quote.{quote, split_login, quote_tilde, quote_path}
use hpc_relay.Shell.Reader.{
  lit, tilde, ShellWord, literal, word, between, bare, login, Reader, step_in, finish, run,
}
use hpc_relay.Shell.RoundTrip.{after, behind, run-quote, run-after_end, run-after_space}
use hpc_relay.Text.{Text}

-- At the start of a word the text `s` reads as the one word `w`, before a blank and at the end.
pub record ReadsAs (s : Text) (w : ShellWord) : Type 0 where
  pub at_end :
      (r : Reader) → r.mode ≡ between → r.current ≡ [] → run r s ≡ some (r.done ++ word w ∷ [])
  pub at_blank :
      (r : Reader) (rest : Text)
      → r.mode ≡ between
      → r.current ≡ []
      → run r (s ++ (b' ' ∷ rest)) ≡ run (behind r (word w ∷ [])) rest

pub quote-ReadsAs : (s : Text) → ReadsAs (quote s) (literal s)
quote-ReadsAs s = record {
  at_end = λ r m e. rw (← append-nil (quote s)) (run-quote s r [] (inl m) ∙ run-after_end r s e);
  at_blank = λ r rest m e. run-quote s r (b' ' ∷ rest) (inl m) ∙ run-after_space r s rest e;
}

-- The word of a tilde prefix and the text behind it; `s` is the whole text.
unfoldable pub tilde_word : Text → Text → Text → ShellWord
tilde_word s user [] = tilde user ∷ []
tilde_word s user (c ∷ rest) = if c == b'/' then tilde user ∷ literal (c ∷ rest) else literal s

unfoldable pub path_word : Text → ShellWord
path_word [] = []
path_word (c ∷ s) =
    let (user, rest) = split_login s in
    if c == b'~' then tilde_word (c ∷ s) user rest else literal (c ∷ s)

-- The two parts of `split_login` are the text, and the first has login characters alone.
pub split_login_parts :
    (s : Text)
    → (s ≡ (split_login s).0 ++ (split_login s).1) × (all is_login_char (split_login s).0 ≡ true)
unfolding split_login
split_login_parts [] = (refl, refl)
split_login_parts (c ∷ s) = let ih = split_login_parts s in ground arith

run-login :
    (s : Text) (u : Text) (r : Reader) (rest : Text)
    → r.mode ≡ login u
    → all is_login_char s ≡ true
    → run r (s ++ rest) ≡ run (record r { mode = login (u ++ s) }) rest
unfolding run step_in
run-login [] u r rest m h = ground (arith, append-nil u)
run-login (c ∷ s) u r rest m h = ground (
  arith,
  append_assoc u (c ∷ []) s,
  run-login s (u ++ c ∷ []) (record r { mode = login (u ++ c ∷ []) }) rest refl,
)

-- `~user`, in front of what may follow a tilde prefix
run-tilde :
    (user : Text) (r : Reader) (rest : Text)
    → r.mode ≡ between
    → all is_login_char user ≡ true
    → run r (b'~' ∷ (user ++ rest)) ≡ run (record r { mode = login user }) rest
unfolding run step_in
run-tilde user r rest m h =
    ground (arith, run-login user [] (record r { mode = login [] }) rest refl)

-- `~user/` in front of more of the word
run-tilde_slash :
    (user : Text) (r : Reader) (rest : Text)
    → r.mode ≡ between
    → all is_login_char user ≡ true
    → run r (b'~' ∷ (user ++ (b'/' ∷ rest)))
      ≡ run (record r { mode = bare; current = tilde user ∷ lit b'/' ∷ [] }) rest
run-tilde_slash user r rest m h = run-tilde user r (b'/' ∷ rest) m h ∙ unfold run step_in in refl

bare_end : (r : Reader) → r.mode ≡ bare → run r [] ≡ some (r.done ++ word r.current ∷ [])
unfolding run finish
bare_end r m = ground arith

bare_blank :
    (r : Reader) (rest : Text)
    → r.mode ≡ bare
    → run r (b' ' ∷ rest) ≡ run (behind r (word r.current ∷ [])) rest
unfolding run step_in
bare_blank r rest m = ground arith

quote_end : (s : Text) (r : Reader) → r.mode ≡ bare → run r (quote s) ≡ run (after r s) []
quote_end s r m = rw (← append-nil (quote s)) (run-quote s r [] (inr m))

module _ (user : Text) (h : all is_login_char user ≡ true) where
  tilde-ReadsAs : ReadsAs (b'~' ∷ user) (tilde user ∷ [])
  tilde-ReadsAs = record {
    at_end = λ r m e.
        ap (λ u. run r (b'~' ∷ u)) (sym (append-nil user))
        ∙ (run-tilde user r [] m h ∙ unfold run finish in refl);
    at_blank = λ r rest m e. run-tilde user r (b' ' ∷ rest) m h ∙ unfold run step_in in refl;
  }

  tilde_slash-ReadsAs : ReadsAs (b'~' ∷ (user ++ (b'/' ∷ []))) (tilde user ∷ lit b'/' ∷ [])
  tilde_slash-ReadsAs = record {
    at_end = λ r m e. run-tilde_slash user r [] m h ∙ bare_end _ refl;
    at_blank = λ r rest m e.
        rw (append_assoc user (b'/' ∷ []) (b' ' ∷ rest))
          (run-tilde_slash user r (b' ' ∷ rest) m h ∙ bare_blank _ rest refl);
  }

  tilde_path-ReadsAs :
      (s : Text) → ReadsAs (b'~' ∷ (user ++ (b'/' ∷ quote s))) (tilde user ∷ literal (b'/' ∷ s))
  tilde_path-ReadsAs s = record {
    at_end = λ r m e. run-tilde_slash user r (quote s) m h ∙ quote_end s _ refl ∙ bare_end _ refl;
    at_blank = λ r rest m e. rw (append_assoc user (b'/' ∷ quote s) (b' ' ∷ rest)) (
        run-tilde_slash user r (quote s ++ (b' ' ∷ rest)) m h
        ∙ run-quote s _ (b' ' ∷ rest) (inr refl)
        ∙ bare_blank _ rest refl);
  }

  quote_tilde-ReadsAs :
      (rest : Text)
      → ReadsAs
          (quote_tilde (b'~' ∷ (user ++ rest)) user rest)
          (tilde_word (b'~' ∷ (user ++ rest)) user rest)
  unfolding quote_tilde tilde_word
  quote_tilde-ReadsAs [] = rw append-nil tilde-ReadsAs
  quote_tilde-ReadsAs (c ∷ []) = elim (Bool-cases (c == b'/')) [
    | inl e ↦ rw (e, (==_iff c b'/').0 e) tilde_slash-ReadsAs
    | inr e ↦ rw e (quote-ReadsAs _)
  ]
  quote_tilde-ReadsAs (c ∷ d ∷ rest) = elim (Bool-cases (c == b'/')) [
    | inl e ↦ rw (e, (==_iff c b'/').0 e) (tilde_path-ReadsAs (d ∷ rest))
    | inr e ↦ rw e (quote-ReadsAs _)
  ]

pub quote_path-ReadsAs : (s : Text) → ReadsAs (quote_path s) (path_word s)
unfolding quote_path path_word
quote_path-ReadsAs [] = quote-ReadsAs []
quote_path-ReadsAs (c ∷ s) = elim (Bool-cases (c == b'~')) [
  | inl e ↦
      let (parts, chars) = split_login_parts s in
      let q = quote_tilde-ReadsAs (split_login s).0 chars (split_login s).1 in
      rw (e, (==_iff c b'~').0 e)
        (subst
          (λ (t : Text).
            ReadsAs (quote_tilde (b'~' ∷ t) (split_login s).0 (split_login s).1)
              (tilde_word (b'~' ∷ t) (split_login s).0 (split_login s).1))
          (sym parts) q)
  | inr e ↦ rw e (quote-ReadsAs (c ∷ s))
]

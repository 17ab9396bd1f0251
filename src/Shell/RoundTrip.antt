-- ===== src/Shell/RoundTrip.antt =====
-- What a shell makes of quoted text: `quote` and `join` against the reader.
use hpc_relay.Base.{
  ℕ, ◌≡◌, refl, ◌∙◌, ◌⊎◌, inl, inr, true, List, [], ◌∷◌, ◌++◌, map, some, append-nil, append_assoc,
  arith, all, Bool-cases, &&-eq_true,
}
use hpc_relay.Shell.Chars.{is_safe}
use hpc_relay.Shell.Quote.{apostrophe, escape_apostrophes, quote, join_spaces, quote_all, join}
use hpc_relay.Shell.Reader.{
  lit, literal, Token, word, between, bare, single, Reader, is_plain, step_in, finish, run, start,
  tokens,
}
use hpc_relay.Text.{Text}

-- The state after the literal text `s`.
abbrev pub after : Reader → Text → Reader
after r s = record r { current = r.current ++ literal s; mode = bare }

abbrev pub CanStart : Reader → Type 0
CanStart r = (r.mode ≡ between) ⊎ (r.mode ≡ bare)

-- The safe characters have no meaning to the shell.
is_safe-is_plain : (c : ℕ) → is_safe c ≡ true → is_plain c ≡ true
unfolding is_safe is_plain
is_safe-is_plain c h = ground arith

pub run-plain :
    (r : Reader) (c : ℕ) (rest : Text)
    → CanStart r
    → is_safe c ≡ true
    → run r (c ∷ rest) ≡ run (after r (c ∷ [])) rest
unfolding run step_in is_safe
run-plain r c rest m h = ground (arith, is_safe-is_plain c)

pub run-safe :
    (s : Text) (r : Reader) (rest : Text)
    → r.mode ≡ bare
    → all is_safe s ≡ true
    → run r (s ++ rest) ≡ run (after r s) rest
run-safe [] r rest m h = ground (arith, append-nil r.current)
run-safe (c ∷ s) r rest m h =
    let (hc, hs) = &&-eq_true (is_safe c) (all is_safe s) h in
    run-plain r c (s ++ rest) (inr m) hc
    ∙ run-safe s (after r (c ∷ [])) rest refl hs
    ∙ rw append_assoc

run-escape :
    (s : Text) (r : Reader) (rest : Text)
    → r.mode ≡ single
    → run r (escape_apostrophes s ++ (apostrophe ∷ rest)) ≡ run (after r s) rest
unfolding run step_in escape_apostrophes
run-escape [] r rest m = ground (arith, append-nil r.current)
run-escape (c ∷ s) r rest m = ground (
  arith,
  append_assoc r.current (lit c ∷ []) (literal s),
  run-escape s (record r { current = r.current ++ lit c ∷ []; mode = single }) rest refl,
)

run_quoted :
    (s : Text) (r : Reader) (rest : Text)
    → CanStart r
    → run r (apostrophe ∷ (escape_apostrophes s ++ (apostrophe ∷ rest))) ≡ run (after r s) rest
run_quoted s r rest m =
    unfold run step_in in ground (arith, run-escape s (record r { mode = single }) rest refl)

-- Whatever is quoted reads back as itself, in front of anything.
pub run-quote :
    (s : Text) (r : Reader) (rest : Text)
    → CanStart r
    → run r (quote s ++ rest) ≡ run (after r s) rest
unfolding quote
run-quote [] r rest m = unfold escape_apostrophes in run_quoted [] r rest m
run-quote (c ∷ s) r rest m = elim (Bool-cases (all is_safe (c ∷ s))) [
  | inl e ↦
      let (hc, hs) = &&-eq_true (is_safe c) (all is_safe s) e in
      rw e (
        run-plain r c (s ++ rest) m hc
        ∙ run-safe s (after r (c ∷ [])) rest refl hs
        ∙ rw append_assoc)
  | inr e ↦ rw e (
      rw (append_assoc (escape_apostrophes (c ∷ s)) (apostrophe ∷ []) rest)
        (run_quoted (c ∷ s) r rest m))
]

-- The word that a shell makes of each argument.
abbrev pub words : List Text → List Token
words argv = map (λ s. word (literal s)) argv

-- The state between words, with `ts` read.
abbrev pub behind : Reader → List Token → Reader
behind r ts = record { mode = between; current = []; done = r.done ++ ts }

pub run-after_end :
    (r : Reader) (s : Text) → r.current ≡ [] → run (after r s) [] ≡ some (r.done ++ words (s ∷ []))
unfolding run finish
run-after_end r s e = ground arith

pub run-after_space :
    (r : Reader) (s rest : Text)
    → r.current ≡ []
    → run (after r s) (b' ' ∷ rest) ≡ run (behind r (words (s ∷ []))) rest
unfolding run step_in
run-after_space r s rest e = ground arith

pub run-join :
    (argv : List Text) (r : Reader)
    → r.mode ≡ between
    → r.current ≡ []
    → run r (join argv) ≡ some (r.done ++ words argv)
unfolding join join_spaces quote_all
run-join [] r m e = unfold run finish in ground (arith, append-nil r.done)
run-join (s ∷ []) r m e =
    rw (← append-nil (quote s)) (run-quote s r [] (inl m) ∙ run-after_end r s e)
run-join (s ∷ t ∷ ss) r m e =
    run-quote s r _ (inl m)
    ∙ run-after_space r s _ e
    ∙ run-join (t ∷ ss) (behind r (words (s ∷ []))) refl refl
    ∙ rw append_assoc

-- A shell reads `shlex.join(argv)` as the words of `argv`, one for one and character for character,
-- with nothing expanded and no operator in between, whatever characters the arguments hold.
pub tokens-join : (argv : List Text) → tokens (join argv) ≡ some (words argv)
unfolding tokens
tokens-join argv = run-join argv start refl refl

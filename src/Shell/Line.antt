-- ===== src/Shell/Line.antt =====
-- A line of parts joined by blanks, each part one word.
use mathlib.Core.List.{map-append}
use hpc_relay.Base.{
  ℕ, ◌≡◌, refl, ◌∙◌, inl, inr, true, List, [], ◌∷◌, ◌++◌, map, some, append-nil, append_assoc,
  arith, all, &&-eq_true,
}
use hpc_relay.Shell.Chars.{is_safe}
use hpc_relay.Shell.PathWord.{ReadsAs}
use hpc_relay.Shell.Quote.{quote, join_spaces}
use hpc_relay.Shell.Reader.{
  literal, ShellWord, Token, word, between, Reader, run, finish, start, tokens,
}
use hpc_relay.Shell.RoundTrip.{
  after, behind, CanStart, run-plain, run-safe, run-quote, run-after_end, run-after_space,
}
use hpc_relay.Text.{Text}

pub run-safe_start :
    (c : ℕ) (s : Text) (r : Reader) (rest : Text)
    → CanStart r
    → all is_safe (c ∷ s) ≡ true
    → run r (c ∷ (s ++ rest)) ≡ run (after r (c ∷ s)) rest
run-safe_start c s r rest m h =
    let (hc, hs) = &&-eq_true (is_safe c) (all is_safe s) h in
    run-plain r c (s ++ rest) m hc ∙ run-safe s (after r (c ∷ [])) rest refl hs ∙ rw append_assoc

-- Safe characters in front of quoted text.
pub prefixed-ReadsAs :
    (c : ℕ) (s t : Text)
    → all is_safe (c ∷ s) ≡ true
    → ReadsAs (c ∷ (s ++ quote t)) (literal (c ∷ (s ++ t)))
prefixed-ReadsAs c s t h = record {
  at_end = λ r m e.
      run-safe_start c s r (quote t) (inl m) h
      ∙ rw (← append-nil (quote t)) (run-quote t (after r (c ∷ s)) [] (inr refl))
      ∙ joined_end r e;
  at_blank = λ r rest m e. rw (append_assoc s (quote t) (b' ' ∷ rest)) (
      run-safe_start c s r (quote t ++ (b' ' ∷ rest)) (inl m) h
      ∙ run-quote t (after r (c ∷ s)) (b' ' ∷ rest) (inr refl)
      ∙ joined r (b' ' ∷ rest)
      ∙ run-after_space r (c ∷ (s ++ t)) rest e);
}
  where
    joined :
        (r : Reader) (rest : Text)
        → run (after (after r (c ∷ s)) t) rest ≡ run (after r (c ∷ (s ++ t))) rest
    joined r rest = simp (map-append, append_assoc)

    joined_end :
        (r : Reader)
        → r.current ≡ []
        → run (after (after r (c ∷ s)) t) [] ≡ some (r.done ++ word (literal (c ∷ (s ++ t))) ∷ [])
    joined_end r e = joined r [] ∙ run-after_end r (c ∷ (s ++ t)) e

pub safe-ReadsAs :
    (c : ℕ) (s : Text) → all is_safe (c ∷ s) ≡ true → ReadsAs (c ∷ s) (literal (c ∷ s))
safe-ReadsAs c s h = record {
  at_end = λ r m e.
      let q = run-safe_start c s r [] (inl m) h in (rw append-nil at q) ∙ run-after_end r (c ∷ s) e;
  at_blank =
      λ r rest m e. run-safe_start c s r (b' ' ∷ rest) (inl m) h ∙ run-after_space r (c ∷ s) rest e;
}

-- Each part reads as the word at its place.
pub data AllRead : List Text → List ShellWord → Type 0 where
  no_parts : AllRead [] []
  part :
      {t : Text} {w : ShellWord} {ts : List Text} {ws : List ShellWord}
      → ReadsAs t w
      → AllRead ts ws
      → AllRead (t ∷ ts) (w ∷ ws)

pub AllRead-append :
    {ts us : List Text} {ws xs : List ShellWord}
    → AllRead ts ws
    → AllRead us xs
    → AllRead (ts ++ us) (ws ++ xs)
AllRead-append no_parts b = b
AllRead-append (part h a) b = part h (AllRead-append a b)

abbrev pub words_of : List ShellWord → List Token
words_of ws = map word ws

run-join_spaces :
    {ts : List Text} {ws : List ShellWord} (r : Reader)
    → AllRead ts ws
    → r.mode ≡ between
    → r.current ≡ []
    → run r (join_spaces ts) ≡ some (r.done ++ words_of ws)
unfolding join_spaces
run-join_spaces r no_parts m e = unfold run finish in ground (arith, append-nil r.done)
run-join_spaces r (part h no_parts) m e = h.at_end r m e
run-join_spaces r (part {w = v} h (part {w} g a)) m e =
    h.at_blank r _ m e
    ∙ run-join_spaces (behind r (word v ∷ [])) (part g a) refl refl
    ∙ rw append_assoc

-- A line of such parts is read as their words.
pub tokens-join_spaces :
    {ts : List Text} {ws : List ShellWord}
    → AllRead ts ws
    → tokens (join_spaces ts) ≡ some (words_of ws)
unfolding tokens
tokens-join_spaces a = run-join_spaces start a refl refl

-- ===== src/Slurm/Sacct/LastRow.antt =====
-- The rows of sacct's output, and the last one of a job.
use hpc_relay.Base.{
  ◌≡◌, ◌≢◌, refl, ap, ◌⊎◌, inl, inr, true, List, [], ◌∷◌, ◌++◌, some, arith, All, Bool-cases,
  Option-cases, ◌==◌, all, not,
}
use hpc_relay.Exec.{returns}
use hpc_relay.Result.{ok}
use hpc_relay.Slurm.Sacct.{
  States, find, Row, skip, row, unknown, blank_state, token_row, state_row, read_row, read_rows,
}
use hpc_relay.Slurm.Types.{SlurmJobId, SlurmJobState, state_of}
use hpc_relay.Text.{Text, same, same_iff}
use hpc_relay.Text.Split.{split_blank, partition}

-- A line `<id>|<state> …`: the id holds no bar, and the first word behind the bar names the state.
pub record IsRow (line : Text) (id : SlurmJobId) (s : SlurmJobState) : Type 0 where
  pub raw : Text
  pub token : Text
  pub more : List Text
  pub parts : line ≡ id ++ (b'|' ∷ raw)
  pub no_bar : all (λ c. not (c == b'|')) id ≡ true
  pub words : split_blank raw ≡ token ∷ more
  pub names : state_of token ≡ some s

partition-parts :
    (line a b : Text)
    → partition b'|' line ≡ some (a, b)
    → (line ≡ a ++ (b'|' ∷ b)) × (all (λ c. not (c == b'|')) a ≡ true)
unfolding partition
partition-parts [] a b h = cc
partition-parts (c ∷ line) a b h = elim (Option-cases (partition b'|' line)) [
  | inl n ↦ ground (arith, n)
  | inr (ab, q) ↦ ground (arith, q, partition-parts line ab.0 ab.1 q)
]

token_row-words :
    (id id' : SlurmJobId) (raw : Text) (ts : List Text) (s : SlurmJobState)
    → token_row id raw ts ≡ row id' s
    → (id ≡ id')
      × ((token : Text) × (more : List Text) × (ts ≡ token ∷ more) × (state_of token ≡ some s))
unfolding token_row
token_row-words id id' raw [] s h = cc
token_row-words id id' raw (t ∷ ts) s h = (ground arith, (t, ts, refl, ground arith))

state_row-words :
    (id id' : SlurmJobId) (raw : Text) (s : SlurmJobState)
    → state_row id raw ≡ row id' s
    → (id ≡ id')
      × ((token : Text) × (more : List Text) × (split_blank raw ≡ token ∷ more)
          × (state_of token ≡ some s))
unfolding state_row
state_row-words id id' [] s h = cc
state_row-words id id' (c ∷ raw) s h = token_row-words id id' (c ∷ raw) _ s h

read_row-IsRow :
    (expected : List SlurmJobId) (line : Text) (id : SlurmJobId) (s : SlurmJobState)
    → read_row expected line ≡ row id s
    → IsRow line id s
unfolding read_row
read_row-IsRow expected line id s h = elim (Option-cases (partition b'|' line)) [
  | inl n ↦ ground (arith, n)
  | inr (ab, q) ↦
      let (parts, no_bar) = partition-parts line ab.0 ab.1 q in
      let (same_id, (token, more, words, names)) =
        state_row-words ab.0 id ab.1 s (ground (arith, q)) in
      record {
        raw = ab.1;
        token = token;
        more = more;
        parts = rw (← same_id) parts;
        no_bar = rw (← same_id) no_bar;
        words = words;
        names = names;
      }
]

-- No line of `lines` is a row of `id`.
abbrev pub NoRow : List SlurmJobId → SlurmJobId → List Text → Type 0
NoRow expected id = All (λ line. (s : SlurmJobState) → read_row expected line ≢ row id s)

-- The last row of `id` in `lines` gives it the state `s`.
pub record LastRow (expected : List SlurmJobId) (lines : List Text) (id : SlurmJobId)
    (s : SlurmJobState) : Type 0 where
  pub before : List Text
  pub line : Text
  pub behind : List Text
  pub parts : lines ≡ before ++ line ∷ behind
  pub is_row : IsRow line id s
  pub no_later : NoRow expected id behind

LastRow-cons :
    {expected : List SlurmJobId} {lines : List Text} {id : SlurmJobId} {s : SlurmJobState}
    (line : Text)
    → LastRow expected lines id s
    → LastRow expected (line ∷ lines) id s
LastRow-cons line l = record {
  before = line ∷ l.before;
  line = l.line;
  behind = l.behind;
  parts = ap (◌∷◌ line) l.parts;
  is_row = l.is_row;
  no_later = l.no_later;
}

module _ (expected : List SlurmJobId) (id : SlurmJobId) (s : SlurmJobState) where
  -- Where the state of `id` comes from: a row of the lines, or the states before them.
  abbrev Source : List Text → States → Type 0
  Source lines states =
      LastRow expected lines id s ⊎ (NoRow expected id lines × (find id states ≡ some s))

  no_row_cons :
      (line : Text) (lines : List Text) (states : States)
      → ((t : SlurmJobState) → read_row expected line ≢ row id t)
      → Source lines states
      → Source (line ∷ lines) states
  no_row_cons line lines states n (inl l) = inl (LastRow-cons line l)
  no_row_cons line lines states n (inr (none_later, f)) = inr ((n, none_later), f)

  row_cons :
      (line : Text) (lines : List Text) (states : States) (j : SlurmJobId) (t : SlurmJobState)
      → read_row expected line ≡ row j t
      → Source lines ((j, t) ∷ states)
      → Source (line ∷ lines) states
  unfolding find
  row_cons line lines states j t e (inl l) = inl (LastRow-cons line l)
  row_cons line lines states j t e (inr (none_later, f)) = elim (Bool-cases (same id j)) [
    | inl same_id ↦
        let p : id ≡ j = (same_iff id j).0 same_id in
        let q : t ≡ s = ground arith in
        inl (record {
          before = [];
          line = line;
          behind = lines;
          parts = refl;
          is_row = read_row-IsRow expected line id s (rw (p, ← q) e);
          no_later = none_later;
        })
    | inr other ↦ inr ((λ u v. ground (arith, same_iff id j), none_later), ground arith)
  ]

  find-step :
      (r : Row) (line : Text) (lines : List Text) (states result : States)
      → read_row expected line ≡ r
      → ((states' : States)
          → read_rows expected states' lines ≡ returns (ok result)
          → Source lines states')
      → read_rows expected states (line ∷ lines) ≡ returns (ok result)
      → Source (line ∷ lines) states
  unfolding read_rows
  find-step skip line lines states result e ih h =
      no_row_cons line lines states (λ t v. cc) (ih states (rw (e, read_rows) at h))
  find-step (row j t) line lines states result e ih h =
      row_cons line lines states j t e (ih ((j, t) ∷ states) (rw (e, read_rows) at h))
  find-step (unknown j raw) line lines states result e ih h = absurd (ground arith)
  find-step blank_state line lines states result e ih h = absurd (ground arith)

  pub find-read_rows :
      (lines : List Text) (states result : States)
      → read_rows expected states lines ≡ returns (ok result)
      → find id result ≡ some s
      → Source lines states
  find-read_rows [] states result r f = inr (tt, unfold read_rows in ground arith)
  find-read_rows (line ∷ lines) states result r f =
      find-step (read_row expected line) line lines states result refl
        (λ states' h. find-read_rows lines states' result h f) r

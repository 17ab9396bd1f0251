-- ===== src/Unicore/Kept.antt =====
-- What every call but the deletion of the job keeps, the functions that make no deletion keep.
use hpc_relay.Base.{ℕ, zero, suc, ◌≡◌, Bool, true, false, List, [], ◌∷◌, ◌++◌, Option, none, some}
use hpc_relay.Exec.Keeps.{
  Keeps, Keeps-pure, Keeps-raise, Keeps-if, Keeps-bind, Keeps-then, Keeps-catch,
}
use hpc_relay.Exec.{Outcome, pure, raise, ◌>>=◌}
use hpc_relay.Result.{key_error}
use hpc_relay.Text.{Text}
use hpc_relay.Unicore.{
  Call, delete, Properties, Site, asks, Drained, is_terminal, status_of, job_status, job_exit_code,
  read_remote_text, drain_stdout, poll_round, finish, watch, attend,
}

abbrev pub is_delete : Call → Bool
is_delete delete = true
is_delete _ = false

-- Each call keeps this property of the log.
module _ {P : List Call → Type 0}
    (kept : (log : List Call) (k : Call) → is_delete k ≡ false → P log → P (log ++ k ∷ [])) where
  asks-Keeps :
      {A : Type 0} (answer : List Call → Outcome A) (k : Call)
      → is_delete k ≡ false
      → Keeps P (asks answer k)
  asks-Keeps answer k e = record { at = λ log h. kept log k e h }

  status_of-Keeps : (props : Option Properties) → Keeps P (status_of props)
  status_of-Keeps none = Keeps-raise _
  status_of-Keeps (some p) = go p.status
    where
      go :
          (s : Option Text)
          → Keeps {A = Text} P (elim s [ none ↦ raise key_error | some t ↦ pure t ])
      go none = Keeps-raise _
      go (some t) = Keeps-pure t

  module _ (site : Site) (decode : Text → Text) where
    pub job_status-Keeps : Keeps P (job_status site decode)
    unfolding job_status
    job_status-Keeps = search (Keeps-bind, asks-Keeps, status_of-Keeps)

    read-Keeps : (name : Text) → Keeps P (read_remote_text site decode name)
    unfolding read_remote_text
    read-Keeps name = search (Keeps-bind, Keeps-if, Keeps-pure, Keeps-raise, asks-Keeps)

    drain-Keeps : (d : Drained) → Keeps P (drain_stdout site decode d)
    unfolding drain_stdout
    drain-Keeps d = search (Keeps-catch, Keeps-pure, read-Keeps)

    pub round-Keeps : (d : Drained) → Keeps P (poll_round site decode d)
    unfolding poll_round
    round-Keeps d =
        search (Keeps-bind, Keeps-then, Keeps-pure, job_status-Keeps, drain-Keeps, asks-Keeps)

    pub finish-Keeps : (d : Drained) → Keeps P (finish site decode d)
    unfolding finish job_exit_code
    finish-Keeps d =
        search
          (
            Keeps-bind, Keeps-catch, Keeps-pure, job_status-Keeps, drain-Keeps, read-Keeps,
            asks-Keeps,
          )
          depth 9

    pub watch-Keeps : (rounds : ℕ) (d : Drained) → Keeps P (watch site decode rounds d)
    unfolding watch
    watch-Keeps zero d = Keeps-pure none
    watch-Keeps (suc rounds) d =
        Keeps-bind (job_status site decode) _ job_status-Keeps
          (λ status. go (watch-Keeps rounds) (is_terminal status))
      where
        go :
            ((d : Drained) → Keeps P (watch site decode rounds d))
            → (b : Bool)
            → Keeps P (elim b [
              | true ↦ finish site decode d >>= λ r. pure (some r)
              | false ↦ poll_round site decode d >>= watch site decode rounds
            ])
        go more true =
            Keeps-bind (finish site decode d) _ (finish-Keeps d) (λ r. Keeps-pure (some r))
        go more false = Keeps-bind (poll_round site decode d) _ (round-Keeps d) more

    pub attend-Keeps : (rounds : ℕ) → Keeps P (attend site decode rounds)
    unfolding attend
    attend-Keeps rounds = search (Keeps-then, job_status-Keeps, asks-Keeps, watch-Keeps) depth 9

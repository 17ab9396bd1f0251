-- ===== src/Firecrest/Scratch.antt =====
-- That the scratch directory is looked up once.
use hpc_relay.Base.{◌≡◌, refl, Option, none, some, arith}
use hpc_relay.Exec.{Outcome, returns, raises, Exec, and_then}
use hpc_relay.Firecrest.Answers.{find_default_work_dir, find_username}
use hpc_relay.Firecrest.Runner.{system_name, find_scratch_dir, scratch_dir_or_find, get_scratch_dir}
use hpc_relay.Firecrest.{Api, State, asks}
use hpc_relay.Result.{Exc}
use hpc_relay.Runner.Context.{CscsFirecrestContext}
use hpc_relay.Text.{Text}

-- Where the directory is found, it is remembered.
data FoundEnd : Outcome Text × State → Type 0 where
  found : (d : Text) (t : State) → t.scratch_dir ≡ some d → FoundEnd (returns d, t)
  failed : (e : Exc) (t : State) → FoundEnd (raises e, t)

module _ {A : Type 0} where
  FoundEnd-bind :
      (o : Outcome A × State) (f : A → Exec State Text)
      → ((a : A) (t : State) → FoundEnd (f a t))
      → FoundEnd (and_then o f)
  FoundEnd-bind (returns a, t) f h = h a t
  FoundEnd-bind (raises e, t) f h = failed e t

module _ (api : Api) (ctx : CscsFirecrestContext) where
  find-FoundEnd : (s : State) → FoundEnd (find_scratch_dir api ctx s)
  unfolding find_scratch_dir
  find-FoundEnd s = FoundEnd-bind (asks api.systems_list _ s) _ (λ list t.
      FoundEnd-bind (find_default_work_dir (system_name ctx.hpc) list, t) _
        (λ base u.
          FoundEnd-bind (asks api.info _ u) _
            (λ answer v. FoundEnd-bind (find_username answer, v) _ (λ username w. found _ _ refl))))

  get-FoundEnd : (s : State) → FoundEnd (get_scratch_dir api ctx s)
  unfolding get_scratch_dir
  get-FoundEnd s = go s.scratch_dir refl
    where
      go : (d : Option Text) → s.scratch_dir ≡ d → FoundEnd (scratch_dir_or_find api ctx d s)
      go none e = find-FoundEnd s
      go (some d) e = found d s e

  -- Once the scratch directory is known, it is not looked up again: later calls give the same directory,
  -- without a request, and change nothing.
  pub get_scratch_dir_once :
      (s t : State) (d : Text)
      → get_scratch_dir api ctx s ≡ (returns d, t)
      → get_scratch_dir api ctx t ≡ (returns d, t)
  unfolding get_scratch_dir scratch_dir_or_find
  get_scratch_dir_once s t d e =
      again t d (remembered (get_scratch_dir api ctx s) (get-FoundEnd s) e)
    where
      again :
          (t : State) (d : Text)
          → t.scratch_dir ≡ some d
          → scratch_dir_or_find api ctx t.scratch_dir t ≡ (returns d, t)
      again t d h = rw h refl

      remembered :
          (o : Outcome Text × State) → FoundEnd o → o ≡ (returns d, t) → t.scratch_dir ≡ some d
      remembered _ (found d' t' h) p = ground arith
      remembered _ (failed x t') p = ground arith

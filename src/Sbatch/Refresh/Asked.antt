-- ===== src/Sbatch/Refresh/Asked.antt =====
-- The jobs that `_try_update_status` asks sacct for: a lease that is renewed does not change them.
use hpc_relay.Base.{
  ℕ, zero, suc, In, at_head, in_tail, ◌≡◌, refl, sym, ap, ◌∙◌, inl, inr, false, Bool-cases, List,
  [], ◌∷◌, none, some, take, if◌then◌else◌,
}
use hpc_relay.Sbatch.Refresh.Slot.{lease_variable}
use hpc_relay.Sbatch.Variables.{
  num_reads, lease_var_name, set_var, has_tags, active_tags, payloads_in, running_ids,
  validate_status,
}
use hpc_relay.Sbatch.World.{Variable}
use hpc_relay.Slurm.Types.{SlurmJobId}
use hpc_relay.Text.{Text, same, same_iff}

-- The jobs that are asked for, as the variables `vs` list them.
abbrev pub asked_ids : Text → List Variable → List SlurmJobId
asked_ids hpc vs = running_ids (payloads_in hpc (take num_reads vs))

-- The lease carries no tags, as `_write_lease` leaves it.
abbrev pub LeaseUntagged : Text → List Variable → Type 0
LeaseUntagged hpc vs = (u : Variable) → In u vs → u.name ≡ lease_var_name hpc → u.tags ≡ []

untagged : (hpc : Text) → has_tags (active_tags hpc) [] ≡ false
unfolding has_tags active_tags
untagged hpc = refl

-- A variable without tags is not listed.
payloads_in-untagged :
    (hpc : Text) (v : Variable) (vs : List Variable)
    → v.tags ≡ []
    → payloads_in hpc (v ∷ vs) ≡ payloads_in hpc vs
unfolding payloads_in
payloads_in-untagged hpc v vs e = rw (e, untagged hpc) refl

payloads_in-cons :
    (hpc : Text) (u : Variable) (vs ws : List Variable)
    → payloads_in hpc vs ≡ payloads_in hpc ws
    → payloads_in hpc (u ∷ vs) ≡ payloads_in hpc (u ∷ ws)
unfolding payloads_in
payloads_in-cons hpc u vs ws h =
    ap
      (λ rest.
        if has_tags (active_tags hpc) u.tags
        then elim (validate_status (some u.value)) [ none ↦ rest | some p ↦ p ∷ rest ]
        else rest)
      h

payloads_in-set_var :
    (hpc : Text) (v : Variable) (n : ℕ) (vs : List Variable)
    → v.tags ≡ []
    → ((u : Variable) → In u vs → u.name ≡ v.name → u.tags ≡ [])
    → payloads_in hpc (take n (set_var v vs)) ≡ payloads_in hpc (take n vs)
unfolding set_var
payloads_in-set_var hpc v zero vs e others = refl
payloads_in-set_var hpc v (suc zero) [] e others = payloads_in-untagged hpc v [] e
payloads_in-set_var hpc v (suc (suc n)) [] e others = payloads_in-untagged hpc v [] e
payloads_in-set_var hpc v (suc n) (u ∷ vs) e others = elim (Bool-cases (same v.name u.name)) [
  | inl y ↦
      let t = others u (at_head refl) (sym ((same_iff v.name u.name).0 y)) in
      rw y
        (payloads_in-untagged hpc v (take n vs) e ∙ sym (payloads_in-untagged hpc u (take n vs) t))
  | inr z ↦ rw z (
      payloads_in-cons hpc u (take n (set_var v vs)) (take n vs)
        (payloads_in-set_var hpc v n vs e (λ x m. others x (in_tail m))))
]

pub asked_ids-renewed :
    (hpc : Text) (now : ℕ) (vs : List Variable)
    → LeaseUntagged hpc vs
    → asked_ids hpc (set_var (lease_variable hpc now) vs) ≡ asked_ids hpc vs
asked_ids-renewed hpc now vs none_tagged =
    ap running_ids (payloads_in-set_var hpc (lease_variable hpc now) num_reads vs refl none_tagged)

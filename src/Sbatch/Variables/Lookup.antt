-- ===== src/Sbatch/Variables/Lookup.antt =====
-- Looking up a Prefect variable that was set or removed.
use hpc_relay.Base.{
  ◌≡◌, refl, sym, ap, ◌∙◌, ◌≢◌, inl, inr, true, false, List, [], ◌∷◌, some, Bool-cases,
}
use hpc_relay.Sbatch.Variables.{get_var, set_var}
use hpc_relay.Sbatch.World.{Variable}
use hpc_relay.Text.{Text, same, same_iff}

pub same_refl : (a : Text) → same a a ≡ true
same_refl a = (same_iff a a).1 refl

pub same-differ : (a b : Text) → a ≢ b → same a b ≡ false
same-differ a b differ = elim (Bool-cases (same a b)) [
  | inl h ↦ elim (differ ((same_iff a b).0 h)) [ ]
  | inr h ↦ h
]

pub get_var-set_var :
    (v : Variable) (vs : List Variable) → get_var v.name (set_var v vs) ≡ some v.value
unfolding get_var set_var
get_var-set_var v [] = simp same_refl
get_var-set_var v (u ∷ vs) = elim (Bool-cases (same v.name u.name)) [
  | inl h ↦ simp (h, same_refl)
  | inr h ↦ simp (h, get_var-set_var v vs)
]

pub get_var-set_var_other :
    (name : Text) (v : Variable) (vs : List Variable)
    → name ≢ v.name
    → get_var name (set_var v vs) ≡ get_var name vs
unfolding get_var set_var
get_var-set_var_other name v [] differ = simp (same-differ name v.name differ)
get_var-set_var_other name v (u ∷ vs) differ = elim (Bool-cases (same v.name u.name)) [
  | inl h ↦
      let e = (same_iff v.name u.name).0 h in
      let d = same-differ name v.name differ in
      let d_u = ap (same name) (sym e) ∙ d in simp (h, d, d_u)
  | inr h ↦
      let rest = get_var-set_var_other name v vs differ in
      elim (Bool-cases (same name u.name)) [ inl q ↦ simp (h, q) | inr q ↦ simp (h, q, rest) ]
]

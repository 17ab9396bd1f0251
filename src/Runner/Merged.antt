-- ===== src/Runner/Merged.antt =====
-- The merge of the variables of a command into an environment: {**d, **vars}, in _local.py and _jsc.py.
use hpc_relay.Base.{
  ◌≡◌, refl, sym, ◌∙◌, false, [], ◌∷◌, Option, none, some, if◌then◌else◌, arith, Bool-cases, inl,
  inr,
}
use hpc_relay.Runner.Types.{EnvVars}
use hpc_relay.Text.{Text, same, same_iff}

-- d[name] = value
unfoldable pub put : Text → Text → EnvVars → EnvVars
unfolding same
put name value [] = (name, value) ∷ []
put name value ((key, old) ∷ d) =
    let rest = put name value d in if same key name then (key, value) ∷ d else (key, old) ∷ rest

-- {**d, **vars}
unfoldable pub merge : EnvVars → EnvVars → EnvVars
unfolding put
merge d [] = d
merge d ((name, value) ∷ vars) = merge (put name value d) vars

-- env.get(name)
unfoldable pub lookup : Text → EnvVars → Option Text
lookup name [] = none
lookup name ((key, value) ∷ env) =
    let rest = lookup name env in if same key name then some value else rest

-- A value, or else the second one.
abbrev pub found_or : Option Text → Option Text → Option Text
found_or none default = default
found_or (some v) default = some v

-- The last value of a name; in a `dict`, which has each name once, it is the value.
unfoldable pub last_of : Text → EnvVars → Option Text
last_of name [] = none
last_of name ((key, value) ∷ vars) =
    found_or (last_of name vars) (if same key name then some value else none)

lookup-put :
    (name key value : Text) (d : EnvVars)
    → lookup name (put key value d)
      ≡ found_or (if same key name then some value else none) (lookup name d)
unfolding lookup put
lookup-put name key value [] = elim (Bool-cases (same key name)) [
  | inl y ↦ rw y refl
  | inr z ↦ rw z refl
]
lookup-put name key value ((k, old) ∷ d) = elim (Bool-cases (same k key)) [
  | inl y ↦
      let is : k ≡ key = (same_iff k key).0 y in
      rw y (elim (Bool-cases (same key name)) [ inl q ↦ rw is (simp q) | inr q ↦ rw is (simp q) ])
  | inr z ↦ elim (Bool-cases (same k name)) [
    | inl q ↦
        let is : k ≡ name = (same_iff k name).0 q in
        let apart : same key name ≡ false = elim (Bool-cases (same key name)) [
          | inl p ↦
              let both : k ≡ key = is ∙ sym ((same_iff key name).0 p) in
              absurd (ground (arith, (same_iff k key).1 both, z))
          | inr p ↦ p
        ] in
        simp (z, q, apart)
    | inr q ↦ simp (z, q, lookup-put name key value d)
  ]
]

found_or-found_or : (a b c : Option Text) → found_or a (found_or b c) ≡ found_or (found_or a b) c
found_or-found_or none b c = refl
found_or-found_or (some v) b c = refl

-- In the merge of the variables of a command into an environment, each variable has the value that the
-- command gives it, or, where the command gives none, the value of the environment, or none.
pub lookup-merge :
    (name : Text) (d vars : EnvVars)
    → lookup name (merge d vars) ≡ found_or (last_of name vars) (lookup name d)
unfolding lookup merge last_of
lookup-merge name d [] = refl
lookup-merge name d ((key, value) ∷ vars) =
    rw (lookup-merge name (put key value d) vars, lookup-put name key value d)
      (found_or-found_or (last_of name vars) _ (lookup name d))

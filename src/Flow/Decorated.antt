-- ===== src/Flow/Decorated.antt =====
-- The keyword arguments that the decorators `task` and `flow` of prefect.py pass to those of Prefect.
use hpc_relay.Base.{
  ℕ, ◌≡◌, refl, sym, ap, ◌∙◌, inl, inr, false, Bool-cases, List, [], ◌∷◌, Option, none, some,
  if◌then◌else◌, Option-cases,
}
use hpc_relay.Sbatch.Variables.Lookup.{same-differ}
use hpc_relay.Text.{Text, codes, same, same_iff}

-- A value that the wrappers set, or one of the caller.
pub data Setting (X : Type 0) : Type 0 where
  days count : ℕ → Setting X
  key_by_token name_by_token yes : Setting X
  given : X → Setting X

abbrev pub Kwargs : Type 0 → Type 0
Kwargs X = List (Text × Setting X)

module _ {X : Type 0} where
  unfoldable pub kwarg : Text → Kwargs X → Option (Setting X)
  kwarg key [] = none
  kwarg key ((k, v) ∷ kwargs) = let rest = kwarg key kwargs in if same k key then some v else rest

  -- kwargs[key] = value
  unfoldable pub set_item : Text → Setting X → Kwargs X → Kwargs X
  set_item key value [] = (key, value) ∷ []
  set_item key value ((k, v) ∷ kwargs) =
      let rest = set_item key value kwargs in
      if same k key then (k, value) ∷ kwargs else (k, v) ∷ rest

  -- kwargs.setdefault(key, value)
  unfoldable pub set_default : Text → Setting X → Kwargs X → Kwargs X
  unfolding set_item kwarg
  set_default key value kwargs = elim (kwarg key kwargs) [
    | some v ↦ kwargs
    | none ↦ set_item key value kwargs
  ]

  -- What `task` passes to `prefect.task`.
  unfoldable pub task_kwargs : Kwargs X → Kwargs X
  unfolding set_default set_item
  task_kwargs kwargs = set_item (codes "persist_result") yes (
      set_item (codes "cache_key_fn") key_by_token (
        set_default (codes "retries") (count 0)
          (set_default (codes "cache_expiration") (days 14) kwargs)))

  -- What `flow` passes to `prefect.flow`.
  unfoldable pub flow_kwargs : Kwargs X → Kwargs X
  unfolding set_item
  flow_kwargs kwargs = set_item (codes "flow_run_name") name_by_token kwargs

  abbrev or_else : Setting X → Option (Setting X) → Option (Setting X)
  or_else value none = some value
  or_else value (some v) = some v

  kwarg-set_item :
      (name key : Text) (value : Setting X) (kwargs : Kwargs X)
      → kwarg name (set_item key value kwargs)
        ≡ (if same key name then some value else kwarg name kwargs)
  unfolding kwarg set_item
  kwarg-set_item name key value [] = elim (Bool-cases (same key name)) [
    | inl h ↦ rw h refl
    | inr h ↦ rw h refl
  ]
  kwarg-set_item name key value ((k, v) ∷ kwargs) = elim (Bool-cases (same k key)) [
    | inl h ↦
        let as_key : same key name ≡ same k name =
          ap (λ x. same x name) (sym ((same_iff k key).0 h)) in
        elim (Bool-cases (same k name)) [
          | inl q ↦ simp (h, q, as_key)
          | inr q ↦ simp (h, q, as_key)
        ]
    | inr h ↦ elim (Bool-cases (same k name)) [
      | inl q ↦
          let e = (same_iff k name).0 q in
          let other : same key name ≡ false =
            same-differ key name (λ p. cc (h, (same_iff k key).1 (e ∙ sym p))) in
          simp (h, q, other)
      | inr q ↦ simp (h, q, kwarg-set_item name key value kwargs)
    ]
  ]

  kwarg-set_default :
      (name key : Text) (value : Setting X) (kwargs : Kwargs X)
      → kwarg name (set_default key value kwargs)
        ≡ (if same key name then or_else value (kwarg key kwargs) else kwarg name kwargs)
  unfolding set_default
  kwarg-set_default name key value kwargs = elim (Option-cases (kwarg key kwargs)) [
    | inl n ↦ rw (set_default, n) (kwarg-set_item name key value kwargs)
    | inr (v, e) ↦ elim (Bool-cases (same key name)) [
      | inl h ↦
          rw (set_default, e, h) (ap (λ k. kwarg k kwargs) (sym ((same_iff key name).0 h)) ∙ e)
      | inr h ↦ rw (set_default, e, h) refl
    ]
  ]

  -- What `prefect.task` gets.
  pub record IsSetUp (kwargs set : Kwargs X) : Type 0 where
    pub key : kwarg (codes "cache_key_fn") set ≡ some key_by_token
    pub persists : kwarg (codes "persist_result") set ≡ some yes
    pub expires :
        kwarg (codes "cache_expiration") set
        ≡ or_else (days 14) (kwarg (codes "cache_expiration") kwargs)
    pub retries : kwarg (codes "retries") set ≡ or_else (count 0) (kwarg (codes "retries") kwargs)

  -- Whatever the caller passes, a task keeps its results under the key made of the token; it expires
  -- after 14 days and is not retried, where the caller says nothing else.
  pub task_kwargs-IsSetUp : (kwargs : Kwargs X) → IsSetUp kwargs (task_kwargs kwargs)
  unfolding task_kwargs same
  task_kwargs-IsSetUp kwargs = record {
    key = simp kwarg-set_item;
    persists = simp kwarg-set_item;
    expires = simp (kwarg-set_item, kwarg-set_default);
    retries = simp (kwarg-set_item, kwarg-set_default);
  }

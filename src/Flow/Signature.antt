-- ===== src/Flow/Signature.antt =====
-- The check of a flow's signature in prefect.py, and what a run logs of its token. The signature and its
-- type hints, which Python's `inspect` and `typing` give, are data; `repr` is a parameter.
use hpc_relay.Base.{
  ◌≡◌, refl, ◌⊎◌, inl, inr, Bool, true, false, ◌&&◌, List, [], ◌∷◌, ◌++◌, Option, none, some,
  if◌then◌else◌, all, any, arith, In, at_head, in_tail,
}
use hpc_relay.Exec.{Outcome, returns, raises}
use hpc_relay.Flow.{FlowRun, short_run_id}
use hpc_relay.Result.{type_error, no_rerun_token, rerun_token_type}
use hpc_relay.Text.{Text, codes, same}

-- A type that is no union, and an annotation.
pub data Hint : Type 0 where
  str_hint none_hint : Hint
  other_hint : Text → Hint

pub data Annotation : Type 0 where
  plain : Hint → Annotation
  union : List Hint → Annotation

pub record Signature : Type 0 where
  pub name : Text
  pub parameters : List Text
  pub hints : List (Text × Annotation)

abbrev is_str : Hint → Bool
is_str str_hint = true
is_str _ = false

abbrev is_none : Hint → Bool
is_none none_hint = true
is_none _ = false

abbrev is_either : Hint → Bool
is_either (other_hint t) = false
is_either _ = true

-- set(get_args(tp)) == {str, type(None)}
unfoldable pub is_str_or_none : Annotation → Bool
is_str_or_none (plain h) = false
is_str_or_none (union hints) = any is_str hints && (any is_none hints && all is_either hints)

unfoldable pub hint_of : Text → List (Text × Annotation) → Option Annotation
hint_of name [] = none
hint_of name ((key, a) ∷ hints) =
    let rest = hint_of name hints in if same key name then some a else rest

-- The line of `_log_rerun_info`.
unfoldable pub log_rerun_info : (Text → Text) → FlowRun → Option Text → Text
unfolding short_run_id
log_rerun_info repr run none =
    codes "Fresh run. To resume if interrupted, rerun with rerun_token='"
    ++ (short_run_id run ++ codes "'.")
log_rerun_info repr run (some token) =
    codes "Resuming with rerun_token=" ++ (repr token ++ codes ".")

module _ (repr : Text → Text) (repr_hint : Annotation → Text) where
  unfoldable pub check_hint : Text → Option Annotation → Outcome (Unit {0})
  unfolding is_str_or_none
  check_hint name none = returns tt
  check_hint name (some a) =
      if is_str_or_none a
      then returns tt
      else raises (type_error (rerun_token_type (repr name) (repr_hint a)))

  -- `_validate_rerun_token_param`
  unfoldable pub validate_rerun_token_param : Signature → Outcome (Unit {0})
  unfolding check_hint hint_of same
  validate_rerun_token_param sig =
      if any (same (codes "rerun_token")) sig.parameters
      then check_hint sig.name (hint_of (codes "rerun_token") sig.hints)
      else raises (type_error (no_rerun_token (repr sig.name)))

-- `str | None`, in either order, with nothing else.
pub record IsStrOrNone (hints : List Hint) : Type 0 where
  pub has_str : In str_hint hints
  pub has_none : In none_hint hints
  pub nothing_else : (h : Hint) → In h hints → (h ≡ str_hint) ⊎ (h ≡ none_hint)

is_str-In : (hints : List Hint) → any is_str hints ≡ true → In str_hint hints
is_str-In [] h = cc
is_str-In (str_hint ∷ hints) h = at_head refl
is_str-In (none_hint ∷ hints) h = in_tail (is_str-In hints h)
is_str-In (other_hint t ∷ hints) h = in_tail (is_str-In hints h)

is_none-In : (hints : List Hint) → any is_none hints ≡ true → In none_hint hints
is_none-In [] h = cc
is_none-In (none_hint ∷ hints) h = at_head refl
is_none-In (str_hint ∷ hints) h = in_tail (is_none-In hints h)
is_none-In (other_hint t ∷ hints) h = in_tail (is_none-In hints h)

is_either-In :
    (hints : List Hint)
    → all is_either hints ≡ true
    → (h : Hint) → In h hints
    → (h ≡ str_hint) ⊎ (h ≡ none_hint)
is_either-In [] e h i = elim i [ ]
is_either-In (str_hint ∷ hints) e h (at_head q) = inl q
is_either-In (none_hint ∷ hints) e h (at_head q) = inr q
is_either-In (str_hint ∷ hints) e h (in_tail m) = is_either-In hints e h m
is_either-In (none_hint ∷ hints) e h (in_tail m) = is_either-In hints e h m
is_either-In (other_hint t ∷ hints) e h i = cc

-- An annotation that passes is a union of `str` and `None` and of no other type.
pub is_str_or_none-IsStrOrNone :
    (a : Annotation)
    → is_str_or_none a ≡ true
    → (hints : List Hint) × (a ≡ union hints) × IsStrOrNone hints
unfolding is_str_or_none
is_str_or_none-IsStrOrNone (plain h) e = cc
is_str_or_none-IsStrOrNone (union hints) e = (
  hints,
  refl,
  record {
    has_str = is_str-In hints (ground arith);
    has_none = is_none-In hints (ground arith);
    nothing_else = is_either-In hints (ground arith);
  },
)

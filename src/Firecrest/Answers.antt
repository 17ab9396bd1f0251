-- ===== src/Firecrest/Answers.antt =====
-- The answers of FirecREST that _cscs_firecrest.py looks into, and what it finds there.
use hpc_relay.Base.{ℕ, Bool, false, List, [], ◌∷◌, Option, none, some, if◌then◌else◌}
use hpc_relay.Exec.{Outcome, returns, raises}
use hpc_relay.Result.{runtime_error, no_default_work_dir, no_system, no_username}
use hpc_relay.Text.{Text, codes, same}

-- A value of JSON; `other` is one that is neither a text nor an object nor null.
mutual
  pub data Json : Type 0 where
    null : Json
    text : Text → Json
    other : ℕ → Json
    object : Fields → Json

  pub data Fields : Type 0 where
    end : Fields
    field : Text → Json → Fields → Fields

-- A system, as far as the runner reads it.
pub record FileSystem : Type 0 where
  pub default_work_dir : Bool
  pub path : Json

pub record System : Type 0 where
  pub name : Json
  pub file_systems : List FileSystem

unfoldable pub get : Text → Fields → Option Json
unfolding same
get key end = none
get key (field k v fields) = let rest = get key fields in if same k key then some v else rest

-- isinstance(value, str) and value
unfoldable pub nonempty_text : Json → Option Text
nonempty_text (text (c ∷ s)) = some (c ∷ s)
nonempty_text _ = none

unfoldable pub work_dir_in : List FileSystem → Option Text
unfolding nonempty_text
work_dir_in [] = none
work_dir_in (fs ∷ rest) =
    let later = work_dir_in rest in
    if fs.default_work_dir
    then elim (nonempty_text fs.path) [ some p ↦ some p | none ↦ later ]
    else later

unfoldable pub is_named : Text → Json → Bool
unfolding same
is_named hpc (text name) = same name hpc
is_named hpc _ = false

-- `_find_default_work_dir`, once the systems are known
unfoldable pub find_default_work_dir : Text → List System → Outcome Text
unfolding work_dir_in is_named
find_default_work_dir hpc [] = raises (runtime_error (no_system hpc))
find_default_work_dir hpc (s ∷ systems) =
    let later = find_default_work_dir hpc systems in
    if is_named hpc s.name
    then elim (work_dir_in s.file_systems) [
      | some p ↦ returns p
      | none ↦ raises (runtime_error (no_default_work_dir hpc))
    ]
    else later

-- The value at the end of a path of keys.
unfoldable pub at_path : List Text → Json → Option Json
unfolding get
at_path [] value = some value
at_path (key ∷ keys) (object fields) = elim (get key fields) [
  | none ↦ none
  | some v ↦ at_path keys v
]
at_path (key ∷ keys) _ = none

unfoldable pub name_at : List Text → Json → Option Text
unfolding at_path nonempty_text
name_at path info = elim (at_path path info) [ none ↦ none | some v ↦ nonempty_text v ]

-- `_find_username`, once the answer is known
unfoldable pub find_username : Json → Outcome Text
unfolding name_at
find_username info = elim (name_at (codes "user" ∷ codes "name" ∷ []) info) [
  | some n ↦ returns n
  | none ↦ elim (name_at (codes "username" ∷ []) info) [
    | some n ↦ returns n
    | none ↦ elim (name_at (codes "name" ∷ []) info) [
      | some n ↦ returns n
      | none ↦ raises (runtime_error no_username)
    ]
  ]
]

-- submit_resp[key], where it is there and not None
unfoldable pub present : Text → Fields → Option Json
unfolding get
present key fields = elim (get key fields) [ none ↦ none | some null ↦ none | some v ↦ some v ]

unfoldable pub job_id_in : (Json → Text) → Fields → Option Text
unfolding present
job_id_in py_str fields = elim (present (codes "jobid") fields) [
  | some v ↦ some (py_str v)
  | none ↦ elim (present (codes "jobId") fields) [ some v ↦ some (py_str v) | none ↦ none ]
]

-- The job id inside `submit_resp.get("job")`.
nested_job_id : (Json → Text) → Option Json → Text
unfolding job_id_in
nested_job_id py_str (some (object job)) = elim (job_id_in py_str job) [ some t ↦ t | none ↦ [] ]
nested_job_id py_str _ = []

-- `_extract_job_id`; `py_str` is `str` of a value.
unfoldable pub extract_job_id : (Json → Text) → Fields → Text
unfolding job_id_in nested_job_id
extract_job_id py_str resp = elim (job_id_in py_str resp) [
  | some t ↦ t
  | none ↦ nested_job_id py_str (get (codes "job") resp)
]

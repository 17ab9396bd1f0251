-- ===== src/Ecaccess/Xml.antt =====
-- The response parser of hpc_relay/cmd_runners/ecmwf_ecaccess_perl.py, on the tree that ElementTree
-- makes of a reply. The parser reads no attribute, so the tree keeps none.
pub mod Fault
use hpc_relay.Base.{
  Bool, true, false, ◌&&◌, List, [], ◌∷◌, ◌++◌, Option, none, some, if◌then◌else◌, ◌==◌,
}
use hpc_relay.Text.{Text, codes, same}
use hpc_relay.Text.Split.{after_last}

mutual
  pub data Element : Type 0 where
    node : Text → Option Text → Elements → Element

  pub data Elements : Type 0 where
    nil : Elements
    cons : Element → Elements → Elements

-- elem.text
abbrev pub text_in : Element → Option Text
text_in (node tag text inner) = text

-- list(elem)
unfoldable pub listed : Elements → List Element
listed nil = []
listed (cons e es) = e ∷ listed es

unfoldable pub children : Element → List Element
unfolding listed
children (node tag text inner) = listed inner

-- elem.iter(): the element, then all below it, in document order
unfoldable mutual
  pub iter : Element → List Element
  iter (node tag text inner) = node tag text inner ∷ iter_all inner

  pub iter_all : Elements → List Element
  iter_all nil = []
  iter_all (cons e es) = iter e ++ iter_all es

-- elem.tag.rsplit("}", 1)[-1]
unfoldable pub local_name : Element → Text
unfolding after_last
local_name (node tag text inner) = after_last (λ c. c == b'}') tag

-- a text that Python takes for true
unfoldable pub filled : Option Text → Option Text
filled none = none
filled (some []) = none
filled (some (c ∷ s)) = some (c ∷ s)

-- s or ""
unfoldable pub or_empty : Option Text → Text
or_empty none = []
or_empty (some s) = s

-- The first of two that is there.
unfoldable pub or_else : Option Text → Option Text → Option Text
or_else none other = other
or_else (some s) other = some s

unfoldable pub first_text : Text → List Element → Option Text
unfolding or_else filled local_name same
first_text name [] = none
first_text name (e ∷ es) =
    let rest = first_text name es in
    if same (local_name e) name then or_else (filled (text_in e)) rest else rest

unfoldable pub fault_in : List Element → Option Text
unfolding first_text iter
fault_in [] = none
fault_in (e ∷ es) =
    let rest = fault_in es in
    if same (local_name e) (codes "Fault")
    then or_else (first_text (codes "faultstring") (iter e)) rest
    else rest

-- `_parse_fault`
unfoldable pub parse_fault : Element → Option Text
unfolding fault_in
parse_fault root = fault_in (iter root)

unfoldable pub first_named : Text → List Element → Option Element
unfolding same local_name
first_named name [] = none
first_named name (e ∷ es) =
    let rest = first_named name es in if same (local_name e) name then some e else rest

-- `_find_response`
unfoldable pub find_response : Element → Text → Option Element
unfolding first_named iter
find_response root method = first_named (method ++ codes "Response") (iter root)

unfoldable pub all_named : Text → List Element → List Element
unfolding same local_name
all_named name [] = []
all_named name (e ∷ es) =
    let rest = all_named name es in if same (local_name e) name then e ∷ rest else rest

-- `_get_returns`
unfoldable pub get_returns : Element → List Element
unfolding all_named children
get_returns resp = all_named (codes "return") (children resp)

-- `_return_text`
unfoldable pub return_text : Element → Text
unfolding first_text children or_empty
return_text resp = or_empty (first_text (codes "return") (children resp))

-- `_elem_field`
unfoldable pub elem_field : Element → Text → Text
unfolding first_named children or_empty
elem_field elem field = elim (first_named field (children elem)) [
  | none ↦ []
  | some child ↦ or_empty (text_in child)
]

unfoldable pub texts_named : Text → List Element → List Text
unfolding same local_name filled
texts_named name [] = []
texts_named name (e ∷ es) =
    let rest = texts_named name es in
    if same (local_name e) name
    then elim (filled (text_in e)) [ none ↦ rest | some t ↦ t ∷ rest ]
    else rest

-- `_elem_fields`
unfoldable pub elem_fields : Element → Text → List Text
unfolding texts_named children
elem_fields elem field = texts_named field (children elem)

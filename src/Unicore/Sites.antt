-- ===== src/Unicore/Sites.antt =====
-- `discover_sites` of _jsc.py: the sites that the registry of UNICORE names.
pub mod Named
use hpc_relay.Base.{ℕ, not, Bool, List, [], ◌∷◌, Option, none, some, if◌then◌else◌}
use hpc_relay.Exec.{Outcome, returns, raises}
use hpc_relay.Runner.Merged.{put}
use hpc_relay.Text.{Text, codes, same}
use hpc_relay.Text.Chars.{is_space}
use hpc_relay.Text.Regex.{Piece, lit, plus, Found, concat, match}

-- An entry of the registry, with "" for a field that it does not have.
pub record Entry : Type 0 where
  pub href : Text
  pub kind : Text

abbrev pub is_filled : ℕ → Bool
is_filled c = not (is_space c)

-- r"(https://\S+/rest/core).*"; what follows the group always matches.
abbrev pub base_pattern : List Piece
base_pattern = lit (codes "https://") ∷ plus is_filled ∷ lit (codes "/rest/core") ∷ []

-- r"https://\S+/(\S+)/rest/core"
abbrev pub name_pattern : List Piece
name_pattern =
    lit (codes "https://")
    ∷ plus is_filled
    ∷ lit (codes "/")
    ∷ plus is_filled
    ∷ lit (codes "/rest/core")
    ∷ []

-- n.group(1)
unfoldable pub name_in : List Text → Text
name_in (scheme ∷ host ∷ slash ∷ name ∷ core ∷ []) = name
name_in _ = []

-- m.group(1)
unfoldable pub base_in : List Text → Text
base_in ts = concat ts

-- The name and the address of a site, of the matches of the two patterns.
unfoldable pub both_of : Found → Found → Option (Text × Text)
unfolding name_in base_in
both_of (some (base, more)) (some (named, rest)) = some (name_in named, base_in base)
both_of _ _ = none

unfoldable pub site_of : Entry → Option (Text × Text)
unfolding both_of match same
site_of entry =
    if same entry.kind (codes "TargetSystemFactory")
    then both_of (match base_pattern entry.href) (match name_pattern entry.href)
    else none

-- A site that is found again has the address that came last.
unfoldable pub add_site : List (Text × Text) → Option (Text × Text) → List (Text × Text)
unfolding put
add_site sites none = sites
add_site sites (some (name, base)) = put name base sites

unfoldable pub parse_sites : List (Text × Text) → List Entry → List (Text × Text)
unfolding add_site site_of
parse_sites sites [] = sites
parse_sites sites (entry ∷ entries) = parse_sites (add_site sites (site_of entry)) entries

-- `entries` is what the query of the registry comes to.
unfoldable pub discover_sites : Outcome (List Entry) → Outcome (List (Text × Text))
unfolding parse_sites
discover_sites (raises e) = raises e
discover_sites (returns entries) = returns (parse_sites [] entries)

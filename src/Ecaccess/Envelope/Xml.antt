-- ===== src/Ecaccess/Envelope/Xml.antt =====
-- What an XML parser makes of an envelope before it reads the elements: it refuses a character that XML
-- does not allow, and takes each line end, CR LF or CR alone, for LF.
use hpc_relay.Base.{
  ℕ, ◌≡◌, Bool, true, false, not, ◌&&◌, ◌||◌, List, [], ◌∷◌, Option, none, some, if◌then◌else◌,
  ◌==◌, leb, all,
}
use hpc_relay.Ecaccess.Envelope.{Param}
use hpc_relay.Ecaccess.Envelope.Fields.{read_values}
use hpc_relay.Text.{Text}

-- The production `Char` of XML 1.0.
unfoldable pub is_xml_char : ℕ → Bool
is_xml_char c =
    c == 9
    || c == 10
    || c == 13
    || (leb 32 c && leb c 55295)
    || (leb 57344 c && leb c 65533)
    || (leb 65536 c && leb c 1114111)

-- The normalisation of line ends; the flag says that a CR stands before the text.
unfoldable pub normalise : Bool → Text → Text
normalise after_cr [] = []
normalise after_cr (c ∷ s) =
    let behind = normalise false s in
    let behind_cr = normalise true s in
    if c == 13 then 10 ∷ behind_cr else if after_cr && c == 10 then behind else c ∷ behind

-- The values that a parser gives the gateway, by the names and the types of the elements.
unfoldable pub parse_values : List (Text × Option Text) → Text → Option (List Text × Text)
unfolding is_xml_char normalise
parse_values names s = if all is_xml_char s then read_values names (normalise false s) else none

-- A character that XML allows and that is no CR.
unfoldable pub is_plain : ℕ → Bool
unfolding is_xml_char
is_plain c = is_xml_char c && not (c == 13)

abbrev pub IsPlain : Text → Type 0
IsPlain s = all is_plain s ≡ true

abbrev pub HasPlainType : Option Text → Type 0
HasPlainType none = Unit {0}
HasPlainType (some t) = IsPlain t

-- The names, the values and the types are plain.
abbrev pub HasPlain : List Param → Type 0
HasPlain [] = Unit {0}
HasPlain ((name, value, xsi_type) ∷ ps) =
    IsPlain name × IsPlain value × HasPlainType xsi_type × HasPlain ps

-- ===== src/Ecaccess/Envelope/Fields.antt =====
-- What the elements of an envelope hold once the references in them are decoded: the value of each
-- field. What an XML parser makes of line ends, and of characters that it refuses, stands in Xml.
use hpc_relay.Base.{◌≡◌, refl, List, [], ◌∷◌, ◌++◌, Option, none, some, append_assoc}
use hpc_relay.Ecaccess.Envelope.{
  Param, escape, element, type_attribute, param_element, param_elements, opt,
}
use hpc_relay.Ecaccess.Envelope.Escape.{
  strip_prefix, strip_prefix-append, and_then, read_content, read_content-escape, escape-eq_nil,
}
use hpc_relay.Text.{Text, codes}

-- The rest of an element: behind `>` its content, or its end at once.
unfoldable pub read_rest : Text → Text → Option (Text × Text)
unfolding strip_prefix
read_rest tag s = elim (strip_prefix (codes ">") s) [
  | some inner ↦ read_content tag inner
  | none ↦ and_then (strip_prefix (codes " />") s) (λ rest. some ([], rest))
]

-- A field that may be nil.
unfoldable pub read_opt : Text → Text → Option (Option Text × Text)
unfolding strip_prefix read_content
read_opt tag s = and_then (strip_prefix (codes "<ns:" ++ tag) s) (λ behind.
    elim (strip_prefix (codes ">") behind) [
      | some inner ↦
          and_then (read_content (codes "ns:" ++ tag) inner) (λ (v, rest). some (some v, rest))
      | none ↦
          and_then (strip_prefix (codes " xsi:nil=\"true\"/>") behind) (λ rest. some (none, rest))
    ])

-- `_opt`: a field of the request is read back as it was given, absent, empty or with markup in it, by a
-- reader that decodes the references and takes all other characters as they stand.
pub read_opt-opt :
    (tag : Text) (val : Option Text) (rest : Text)
    → read_opt tag (opt tag val ++ rest) ≡ some (val, rest)
unfolding read_opt opt
read_opt-opt tag none rest =
    let mark = codes " xsi:nil=\"true\"/>" in
    rw (append_assoc tag mark rest, strip_prefix-append tag (mark ++ rest)) refl
read_opt-opt tag (some val) rest =
    rw
      (
        append_assoc tag (b'>' ∷ (escape val ++ (codes "</ns:" ++ (tag ++ b'>' ∷ [])))) rest,
        append_assoc (escape val) (codes "</ns:" ++ (tag ++ b'>' ∷ [])) rest,
        append_assoc tag (b'>' ∷ []) rest,
        strip_prefix-append tag (b'>' ∷ (escape val ++ (codes "</ns:" ++ (tag ++ (b'>' ∷ rest))))),
        read_content-escape (codes "ns:" ++ tag) val rest,
      )
      refl

-- The name and the type of a parameter.
abbrev pub heads : List Param → List (Text × Option Text)
heads [] = []
heads ((name, value, xsi_type) ∷ ps) = (name, xsi_type) ∷ heads ps

abbrev pub values : List Param → List Text
values [] = []
values ((name, value, xsi_type) ∷ ps) = value ∷ values ps

-- The value of an element with this name and this type.
unfoldable pub read_param : Text → Option Text → Text → Option (Text × Text)
unfolding strip_prefix read_rest
read_param name xsi_type s =
    and_then (strip_prefix (codes "<ns:" ++ (name ++ type_attribute xsi_type)) s)
      (read_rest (codes "ns:" ++ name))

unfoldable pub read_values : List (Text × Option Text) → Text → Option (List Text × Text)
unfolding read_param
read_values [] s = some ([], s)
read_values ((name, xsi_type) ∷ more) s = and_then (read_param name xsi_type s) (λ (value, behind).
    and_then (read_values more behind) (λ (others, rest). some (value ∷ others, rest)))

-- What an element is behind its name and its attributes.
abbrev behind_head : Text → Text → Text
behind_head tag [] = codes " />"
behind_head tag (c ∷ inner) = b'>' ∷ (c ∷ inner ++ (codes "</" ++ (tag ++ codes ">")))

element-behind_head :
    (tag attrs inner : Text)
    → element tag attrs inner ≡ b'<' ∷ (tag ++ (attrs ++ behind_head tag inner))
unfolding element
element-behind_head tag attrs [] = refl
element-behind_head tag attrs (c ∷ inner) = refl

read_content_of :
    (tag val rest : Text) {e : Text}
    → escape val ≡ e
    → read_content tag (e ++ (codes "</" ++ (tag ++ (b'>' ∷ rest)))) ≡ some (val, rest)
read_content_of tag val rest h = rw (← h) (read_content-escape tag val rest)

read_rest-behind_head :
    (tag val rest e : Text)
    → escape val ≡ e
    → read_rest tag (behind_head tag e ++ rest) ≡ some (val, rest)
unfolding read_rest
read_rest-behind_head tag val rest [] h = rw (escape-eq_nil val h) refl
read_rest-behind_head tag val rest (c ∷ e) h =
    rw (append_assoc e (codes "</" ++ (tag ++ codes ">")) rest, append_assoc tag (codes ">") rest)
      (read_content_of tag val rest h)

read_param-element :
    (p : Param) (rest : Text) → read_param p.0 p.2 (param_element p ++ rest) ≡ some (p.1, rest)
unfolding read_param param_element
read_param-element (name, val, xsi_type) rest =
    let tag = codes "ns:" ++ name in
    let attrs = type_attribute xsi_type in
    rw
      (
        element-behind_head tag attrs (escape val),
        append_assoc name (attrs ++ behind_head tag (escape val)) rest,
        append_assoc attrs (behind_head tag (escape val)) rest,
        ← append_assoc name attrs (behind_head tag (escape val) ++ rest),
        strip_prefix-append (name ++ attrs) (behind_head tag (escape val) ++ rest),
      )
      (read_rest-behind_head tag val rest (escape val) refl)

-- `_soap_envelope` writes the parameters so that this reader reads back each value as it was given.
pub read_values-param_elements :
    (ps : List Param) (rest : Text)
    → read_values (heads ps) (param_elements ps ++ rest) ≡ some (values ps, rest)
unfolding read_values param_elements
read_values-param_elements [] rest = refl
read_values-param_elements ((name, val, xsi_type) ∷ ps) rest =
    rw
      (
        append_assoc (param_element (name, val, xsi_type)) (param_elements ps) rest,
        read_param-element (name, val, xsi_type) (param_elements ps ++ rest),
        read_values-param_elements ps rest,
      )
      refl

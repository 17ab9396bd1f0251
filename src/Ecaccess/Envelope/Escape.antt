-- ===== src/Ecaccess/Envelope/Escape.antt =====
-- A reader of escaped text and of the fields of an envelope, and that it gives back what was written.
use hpc_relay.Base.{
  ℕ, ◌≡◌, refl, ◌∙◌, [], ◌∷◌, ◌++◌, Option, none, some, if◌then◌else◌, ◌==◌, arith, append_assoc,
  append-nil, ◌≢◌,
}
use hpc_relay.Ecaccess.Envelope.{replace, escape}
use hpc_relay.Text.{Text, codes, same}

-- What an entity stands for.
unfoldable pub decode : Text → Option ℕ
unfolding same
decode name =
    if same name (codes "amp")
    then some b'&'
    else if same name (codes "lt")
    then some b'<'
    else if same name (codes "gt")
    then some b'>'
    else none

-- The text up to the next tag, with its entities decoded, and what stands from the tag on. The second
-- argument is the entity that is being read.
unfoldable pub read_text : Text → Option Text → Text → Option (Text × Text)
unfolding decode
read_text out pending [] = none
read_text out none (c ∷ s) =
    let entity = read_text out (some []) s in
    let plain = read_text (out ++ c ∷ []) none s in
    if c == b'<' then some (out, c ∷ s) else if c == b'&' then entity else plain
read_text out (some name) (c ∷ s) =
    let more = read_text out (some (name ++ c ∷ [])) s in
    let next = λ (d : ℕ). read_text (out ++ d ∷ []) none s in
    if c == b';' then elim (decode name) [ none ↦ none | some d ↦ next d ] else more

-- What `escape` writes for a character.
abbrev entity : ℕ → Text
entity c =
    if c == b'&'
    then codes "&amp;"
    else if c == b'<'
    then codes "&lt;"
    else if c == b'>'
    then codes "&gt;"
    else c ∷ []

replace-append :
    (c : ℕ) (new s t : Text) → replace c new (s ++ t) ≡ replace c new s ++ replace c new t
unfolding replace
replace-append c new [] t = refl
replace-append c new (d ∷ s) t = rw (replace-append c new s t) (rw append_assoc)

escape-entity : (c : ℕ) → escape (c ∷ []) ≡ entity c
unfolding escape replace
escape-entity c = ground arith

escape-append : (s t : Text) → escape (s ++ t) ≡ escape s ++ escape t
unfolding escape
escape-append s t = simp replace-append

entity-append-ne_nil : (c : ℕ) (s : Text) → entity c ++ s ≢ []
entity-append-ne_nil c s = λ e. ground arith

-- Only the empty text is written as nothing.
pub escape-eq_nil : (s : Text) → escape s ≡ [] → s ≡ []
escape-eq_nil [] h = refl
escape-eq_nil (c ∷ s) h =
    absurd
      (entity-append-ne_nil c (escape s) (rw (← escape-entity c, ← escape-append (c ∷ []) s) h))

read_text-entity :
    (out : Text) (c : ℕ) (rest : Text)
    → read_text out none (entity c ++ rest) ≡ read_text (out ++ c ∷ []) none rest
unfolding read_text
read_text-entity out c rest = ground arith

read_text_end :
    (out rest : Text)
    → read_text out none (escape [] ++ (b'<' ∷ rest)) ≡ some (out ++ [], b'<' ∷ rest)
unfolding read_text escape replace
read_text_end out rest = rw append-nil

pub read_text-escape :
    (s out rest : Text)
    → read_text out none (escape s ++ (b'<' ∷ rest)) ≡ some (out ++ s, b'<' ∷ rest)
read_text-escape [] out rest = read_text_end out rest
read_text-escape (c ∷ s) out rest =
    rw (escape-append (c ∷ []) s, escape-entity c, append_assoc (entity c))
      (read_text-entity out c _ ∙ read_text-escape s (out ++ c ∷ []) rest ∙ simp append_assoc)

-- What stands behind `prefix`.
unfoldable pub strip_prefix : Text → Text → Option Text
strip_prefix [] s = some s
strip_prefix (c ∷ prefix) [] = none
strip_prefix (c ∷ prefix) (d ∷ s) = if c == d then strip_prefix prefix s else none

pub strip_prefix-append : (prefix s : Text) → strip_prefix prefix (prefix ++ s) ≡ some s
unfolding strip_prefix
strip_prefix-append [] s = refl
strip_prefix-append (c ∷ prefix) s = ground (arith, strip_prefix-append prefix s)

abbrev pub and_then : {A B : Type 0} → Option A → (A → Option B) → Option B
and_then none f = none
and_then (some a) f = f a

-- The content of an element, behind its first tag, up to and with its last tag.
unfoldable pub read_content : Text → Text → Option (Text × Text)
unfolding read_text strip_prefix
read_content tag s = and_then (read_text [] none s) (λ (value, behind).
    and_then (strip_prefix (codes "</" ++ (tag ++ codes ">")) behind) (λ rest. some (value, rest)))

strip_tag : (tag rest : Text) → strip_prefix (tag ++ b'>' ∷ []) (tag ++ (b'>' ∷ rest)) ≡ some rest
strip_tag tag rest =
    rw (← append_assoc tag (b'>' ∷ []) rest) (strip_prefix-append (tag ++ b'>' ∷ []) rest)

-- Escaped content is read back, whatever it holds.
pub read_content-escape :
    (tag s rest : Text)
    → read_content tag (escape s ++ (codes "</" ++ (tag ++ (b'>' ∷ rest)))) ≡ some (s, rest)
unfolding read_content
read_content-escape tag s rest =
    rw (read_text-escape s [] (b'/' ∷ (tag ++ (b'>' ∷ rest)))) (rw (strip_tag tag rest) refl)

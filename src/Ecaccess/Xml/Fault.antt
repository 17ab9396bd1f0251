-- ===== src/Ecaccess/Xml/Fault.antt =====
-- What `_parse_fault` and `_find_response` find: exactly the elements that are there.
use hpc_relay.Base.{
  List, [], ◌∷◌, ◌++◌, Option, none, some, ◌≡◌, refl, ◌≢◌, ◌⊎◌, inl, inr, arith, In, at_head,
  in_tail, Bool-cases, sym,
}
use hpc_relay.Ecaccess.Xml.{
  Element, text_in, iter, local_name, filled, or_else, first_text, fault_in, parse_fault,
  first_named, find_response,
}
use hpc_relay.Text.{Text, codes, same, same_iff}

-- An element of the list with this name and this text, which is not empty.
pub data Says (name : Text) (es : List Element) (t : Text) : Type 0 where
  says :
      (e : Element) → In e es → local_name e ≡ name → text_in e ≡ some t → t ≢ [] → Says name es t

-- A text `faultstring` of an element `Fault` of the reply.
pub data FaultText (es : List Element) (t : Text) : Type 0 where
  fault_text :
      (e : Element)
      → In e es
      → local_name e ≡ codes "Fault"
      → Says (codes "faultstring") (iter e) t
      → FaultText es t

filled-eq-some : (o : Option Text) {t : Text} → filled o ≡ some t → (o ≡ some t) × (t ≢ [])
unfolding filled
filled-eq-some none h = cc
filled-eq-some (some []) h = cc
filled-eq-some (some (c ∷ s)) h = (h, λ e. cc)

filled-ne-none : (o : Option Text) {t : Text} → o ≡ some t → t ≢ [] → filled o ≢ none
unfolding filled
filled-ne-none none h n = λ e. cc
filled-ne-none (some []) h n = λ e. n (ground arith)
filled-ne-none (some (c ∷ s)) h n = λ e. cc

or_else-eq-some :
    (a b : Option Text) {t : Text} → or_else a b ≡ some t → (a ≡ some t) ⊎ (b ≡ some t)
unfolding or_else
or_else-eq-some none b h = inr h
or_else-eq-some (some a) b h = inl h

or_else-ne-none : (a b : Option Text) → (a ≢ none) ⊎ (b ≢ none) → or_else a b ≢ none
unfolding or_else
or_else-ne-none none b (inl h) = λ e. h refl
or_else-ne-none none b (inr h) = h
or_else-ne-none (some a) b h = λ e. cc

Says-tail :
    {name : Text} {e : Element} {es : List Element} {t : Text}
    → Says name es t
    → Says name (e ∷ es) t
Says-tail (says x i n h f) = says x (in_tail i) n h f

FaultText-tail :
    {e : Element} {es : List Element} {t : Text} → FaultText es t → FaultText (e ∷ es) t
FaultText-tail (fault_text x i n h) = fault_text x (in_tail i) n h

first_text-Says :
    (name : Text) (es : List Element) {t : Text} → first_text name es ≡ some t → Says name es t
unfolding first_text
first_text-Says name [] h = cc
first_text-Says name (e ∷ es) {t} h = elim (Bool-cases (same (local_name e) name)) [
  | inl hit ↦ elim (or_else-eq-some (filled (text_in e)) (first_text name es) (ground arith)) [
    | inl own ↦
        let (is, full) = filled-eq-some (text_in e) own in
        says e (at_head refl) ((same_iff _ _).0 hit) is full
    | inr rest ↦ Says-tail (first_text-Says name es rest)
  ]
  | inr miss ↦ Says-tail (first_text-Says name es (ground arith))
]

Says-first_text :
    (name : Text) (es : List Element) {t : Text} → Says name es t → first_text name es ≢ none
unfolding first_text
Says-first_text name es (says x i n h f) = go es i
  where
    go : (es : List Element) → In x es → first_text name es ≢ none
    go [] i = elim i [ ]
    go (e ∷ es) (at_head p) =
        let hit = (same_iff (local_name e) name).1 (ground (arith)) in
        rw hit (or_else-ne-none _ _ (inl (filled-ne-none (text_in e) (ground arith) f)))
    go (e ∷ es) (in_tail j) = elim (Bool-cases (same (local_name e) name)) [
      | inl hit ↦ rw hit (or_else-ne-none _ _ (inr (go es j)))
      | inr miss ↦ rw miss (go es j)
    ]

fault_in-FaultText : (es : List Element) {t : Text} → fault_in es ≡ some t → FaultText es t
unfolding fault_in
fault_in-FaultText [] h = cc
fault_in-FaultText (e ∷ es) {t} h = elim (Bool-cases (same (local_name e) (codes "Fault"))) [
  | inl hit ↦
      elim (or_else-eq-some (first_text (codes "faultstring") (iter e)) (fault_in es)
        (ground arith)) [
          | inl own ↦
              fault_text e (at_head refl) ((same_iff _ _).0 hit) (first_text-Says _ (iter e) own)
          | inr rest ↦ FaultText-tail (fault_in-FaultText es rest)
        ]
  | inr miss ↦ FaultText-tail (fault_in-FaultText es (ground arith))
]

FaultText-fault_in : (es : List Element) {t : Text} → FaultText es t → fault_in es ≢ none
unfolding fault_in
FaultText-fault_in es {t} (fault_text x i n h) = go es i
  where
    go : (es : List Element) → In x es → fault_in es ≢ none
    go [] i = elim i [ ]
    go (e ∷ es) (at_head p) =
        let hit = (same_iff (local_name e) (codes "Fault")).1 (ground (arith)) in
        rw hit (or_else-ne-none _ _ (inl (Says-first_text _ (iter e) {t = t} (rw (← p) h))))
    go (e ∷ es) (in_tail j) = elim (Bool-cases (same (local_name e) (codes "Fault"))) [
      | inl hit ↦ rw hit (or_else-ne-none _ _ (inr (go es j)))
      | inr miss ↦ rw miss (go es j)
    ]

-- `_parse_fault` gives a text exactly of a `faultstring` in a `Fault` of the reply: what it gives is
-- such a text, not empty, and it gives one where there is one.
pub parse_fault-FaultText :
    (root : Element)
    → ((t : Text) → parse_fault root ≡ some t → FaultText (iter root) t)
      × ((t : Text) → FaultText (iter root) t → parse_fault root ≢ none)
unfolding parse_fault
parse_fault-FaultText root =
    (λ t. fault_in-FaultText (iter root), λ t. FaultText-fault_in (iter root))

-- An element of the list with this name.
pub data Named (name : Text) (es : List Element) (e : Element) : Type 0 where
  is_named : In e es → local_name e ≡ name → Named name es e

Named-tail :
    {name : Text} {x e : Element} {es : List Element} → Named name es e → Named name (x ∷ es) e
Named-tail (is_named i n) = is_named (in_tail i) n

first_named-Named :
    (name : Text) (es : List Element) {e : Element} → first_named name es ≡ some e → Named name es e
unfolding first_named
first_named-Named name [] h = cc
first_named-Named name (x ∷ es) {e} h = elim (Bool-cases (same (local_name x) name)) [
  | inl hit ↦
      let is : x ≡ e = ground arith in
      is_named (at_head (sym is)) (rw (← is) ((same_iff (local_name x) name).0 hit))
  | inr miss ↦ Named-tail (first_named-Named name es (ground arith))
]

Named-first_named :
    (name : Text) (es : List Element) {e : Element} → Named name es e → first_named name es ≢ none
unfolding first_named
Named-first_named name es {e} (is_named i n) = go es i
  where
    go : (es : List Element) → In e es → first_named name es ≢ none
    go [] i = elim i [ ]
    go (x ∷ es) (at_head p) =
        let hit = (same_iff (local_name x) name).1 (ground arith) in rw hit (λ q. cc)
    go (x ∷ es) (in_tail j) = elim (Bool-cases (same (local_name x) name)) [
      | inl hit ↦ rw hit (λ q. cc)
      | inr miss ↦ rw miss (go es j)
    ]

-- The element that `_find_response` gives is in the reply and is named for the method, and there is
-- none only where nothing in the reply is.
pub find_response-Named :
    (root : Element) (method : Text)
    → ((e : Element)
        → find_response root method ≡ some e
        → Named (method ++ codes "Response") (iter root) e)
      × ((e : Element)
          → Named (method ++ codes "Response") (iter root) e
          → find_response root method ≢ none)
unfolding find_response
find_response-Named root method =
    (λ e. first_named-Named _ (iter root), λ e. Named-first_named _ (iter root))

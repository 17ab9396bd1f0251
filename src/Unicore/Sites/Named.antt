-- ===== src/Unicore/Sites/Named.antt =====
-- Which entries of the registry are sites, and what is known of their names and addresses.
use hpc_relay.Base.{
  ◌≡◌, ◌≢◌, refl, sym, ap, all-append, ◌∙◌, inl, inr, true, all, List, [], ◌∷◌, ◌++◌, Option, none,
  some, arith, Bool-cases, append_assoc,
}
use hpc_relay.Text.{Text, codes, same, same_iff}
use hpc_relay.Text.Chars.{is_space}
use hpc_relay.Text.Regex.{Found, concat, match}
use hpc_relay.Text.Regex.Complete.{Hit, match-Hit}
use hpc_relay.Text.Regex.Sound.{Splits, over, part, Good, good, nothing, Splits-concat, match-Good}
use hpc_relay.Unicore.Sites.{
  Entry, is_filled, base_pattern, name_pattern, name_in, base_in, both_of, site_of,
}

abbrev pub factory : Text
factory = codes "TargetSystemFactory"

-- The address names a site: a scheme, something filled, and the name between two slashes before the core.
pub record Names (href name : Text) : Type 0 where
  pub host : Text
  pub rest : Text
  pub shape : href ≡ codes "https://" ++ (host ++ (b'/' ∷ (name ++ (codes "/rest/core" ++ rest))))
  pub host_filled : (all is_filled host ≡ true) × (host ≢ [])
  pub name_filled : (all is_filled name ≡ true) × (name ≢ [])

pub data SiteEnd (entry : Entry) : Option (Text × Text) → Type 0 where
  site :
      (name base more : Text)
      → entry.kind ≡ factory
      → Names entry.href name
      → entry.href ≡ base ++ more
      → SiteEnd entry (some (name, base))
  other : (entry.kind ≡ factory → (name : Text) → ¬ Names entry.href name) → SiteEnd entry none

-- What the second pattern finds.
Splits-Names :
    {named : List Text} {href rest : Text}
    → Splits name_pattern named href rest
    → Names href (name_in named)
unfolding name_in
Splits-Names
      (part fa ea
        (part {t = host} fb eb (part fc ec (part fd ed (part fe ee (over {rest = rest} eo)))))) =
    record {
      host = host;
      rest = rest;
      shape = rw (ea, fa, eb, ec, fc, ed, ee, fe, eo) refl;
      host_filled = fb;
      name_filled = fd;
    }

-- The same address, in the pieces of the two patterns.
Names-name : {href name : Text} → Names href name → Hit (match name_pattern href)
Names-name {href} {name} n = match-Hit name_pattern (
    part refl n.shape (
      part n.host_filled refl
        (part refl refl (part n.name_filled refl (part refl refl (over {s = n.rest} refl))))))

append-ne-nil : (a b : Text) → a ≢ [] → (a ++ b) ≢ []
append-ne-nil [] b full e = full refl
append-ne-nil (c ∷ a) b full e = ground arith

filled_slash :
    (host name : Text)
    → all is_filled host ≡ true
    → all is_filled name ≡ true
    → all is_filled (host ++ (b'/' ∷ name)) ≡ true
unfolding is_space
filled_slash host name h k = all-append is_filled host (b'/' ∷ name) ∙ rw (h, k) refl

Names-base : {href name : Text} → Names href name → Hit (match base_pattern href)
Names-base {href} {name} n = match-Hit base_pattern (
    part refl
      (n.shape
        ∙ ap (λ v. codes "https://" ++ v)
            (sym (append_assoc n.host (b'/' ∷ name) (codes "/rest/core" ++ n.rest))))
      (part {t = n.host ++ (b'/' ∷ name)}
        (
          filled_slash n.host name n.host_filled.0 n.name_filled.0,
          append-ne-nil n.host (b'/' ∷ name) n.host_filled.1,
        )
        refl (part refl refl (over {s = n.rest} refl))))

module _ (entry : Entry) (is : entry.kind ≡ factory) where
  both_of-SiteEnd :
      (base named : Found)
      → Good base_pattern entry.href base
      → Good name_pattern entry.href named
      → ((name : Text) → Names entry.href name → Hit base × Hit named)
      → SiteEnd entry (both_of base named)
  unfolding both_of base_in
  both_of-SiteEnd _ _ (good base more h) (good named rest k) c =
      site (name_in named) (concat base) more is (Splits-Names k) (Splits-concat h)
  both_of-SiteEnd _ _ nothing k c = other (λ _ name n. elim (c name n).0 [ ])
  both_of-SiteEnd _ _ (good base more h) nothing c = other (λ _ name n. elim (c name n).1 [ ])

-- An entry of the registry is a site exactly if its type is "TargetSystemFactory" and its address has the
-- form https://host/name/rest/core, with what may follow; then the name is one that it has in this form,
-- and the address of the site is the beginning of it.
pub site_of-SiteEnd : (entry : Entry) → SiteEnd entry (site_of entry)
unfolding site_of
site_of-SiteEnd entry = elim (Bool-cases (same entry.kind factory)) [
  | inl y ↦ rw y (
      both_of-SiteEnd entry ((same_iff entry.kind factory).0 y) (match base_pattern entry.href)
        (match name_pattern entry.href) (match-Good base_pattern entry.href)
        (match-Good name_pattern entry.href) (λ name n. (Names-base n, Names-name n)))
  | inr z ↦ rw z (other (λ is name n. ground (arith, z, (same_iff entry.kind factory).1 is)))
]

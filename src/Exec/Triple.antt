-- ===== src/Exec/Triple.antt =====
-- What holds after an action, by how it ends: `Q` where it returns and `E` where it raises, if `P` held
-- before.
use hpc_relay.Base.{Bool, true, false, if◌then◌else◌}
use hpc_relay.Exec.{Outcome, returns, raises, Exec, pure, raise, ◌>>=◌, ◌>>◌, and_then}
use hpc_relay.Result.{Exc}

pub data Ends {S A : Type 0} (Q E : S → Type 0) : Outcome A × S → Type 0 where
  fine : (a : A) (s : S) → Q s → Ends Q E (returns a, s)
  broke : (e : Exc) (s : S) → E s → Ends Q E (raises e, s)

pub record Does {S A : Type 0} (P Q E : S → Type 0) (m : Exec S A) : Type 0 where
  pub at : (s : S) → P s → Ends Q E (m s)

module _ {S A : Type 0} {P E : S → Type 0} where
  pub Does-pure : (a : A) → Does P P E (pure a)
  Does-pure a = record { at = λ s h. fine a s h }

  pub Does-lift : (o : Outcome A) → ((s : S) → P s → E s) → Does P P E (λ s. (o, s))
  Does-lift o weak = record { at = λ s h. go o s h }
    where
      go : (o : Outcome A) (s : S) → P s → Ends P E (o, s)
      go (returns a) s h = fine a s h
      go (raises e) s h = broke e s (weak s h)

module _ {S A : Type 0} {P Q E : S → Type 0} where
  pub Does-if :
      (b : Bool) (m n : Exec S A) → Does P Q E m → Does P Q E n → Does P Q E (if b then m else n)
  Does-if true m n dm dn = dm
  Does-if false m n dm dn = dn

  pub Does-weaken :
      {P' Q' E' : S → Type 0} (m : Exec S A)
      → ((s : S) → P' s → P s)
      → ((s : S) → Q s → Q' s)
      → ((s : S) → E s → E' s)
      → Does P Q E m
      → Does P' Q' E' m
  Does-weaken {P'} {Q'} {E'} m pre post bad d = record { at = λ s h. go (m s) (d.at s (pre s h)) }
    where
      go : (o : Outcome A × S) → Ends Q E o → Ends Q' E' o
      go _ (fine a s q) = fine a s (post s q)
      go _ (broke e s q) = broke e s (bad s q)

  pub Does-raise : (e : Exc) → ((s : S) → P s → E s) → Does P Q E (raise {A = A} e)
  Does-raise e weak = record { at = λ s h. broke e s (weak s h) }

module _ {S A B : Type 0} {P Q R E : S → Type 0} where
  pub Does-bind :
      (m : Exec S A) (f : A → Exec S B)
      → Does P Q E m
      → ((a : A) → Does Q R E (f a))
      → Does P R E (m >>= f)
  Does-bind m f dm df = record { at = λ s h. go (m s) (dm.at s h) }
    where
      go : (o : Outcome A × S) → Ends Q E o → Ends R E (and_then o f)
      go _ (fine a s q) = (df a).at s q
      go _ (broke e s q) = broke e s q

  pub Does-then : (m : Exec S A) (n : Exec S B) → Does P Q E m → Does Q R E n → Does P R E (m >> n)
  Does-then m n dm dn = Does-bind m (λ _. n) dm (λ _. dn)

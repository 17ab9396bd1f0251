-- ===== src/Exec/Keeps.antt =====
-- Invariants of actions: what holds of the state before an action holds after it, whether it returns
-- or raises.
use hpc_relay.Base.{Bool, true, false, if◌then◌else◌}
use hpc_relay.Exec.{
  Outcome, returns, raises, Exec, pure, raise, ◌>>=◌, ◌>>◌, catch, and_then, handle,
}
use hpc_relay.Result.{Exc}

pub record Keeps {S A : Type 0} (P : S → Type 0) (m : Exec S A) : Type 0 where
  pub at : (s : S) → P s → P (m s).1

module _ {S A : Type 0} {P : S → Type 0} where
  pub Keeps-pure : (a : A) → Keeps P (pure a)
  Keeps-pure a = record { at = λ s h. h }

  pub Keeps-raise : (e : Exc) → Keeps P (raise {A = A} e)
  Keeps-raise e = record { at = λ s h. h }

  pub Keeps-if : (b : Bool) (m n : Exec S A) → Keeps P m → Keeps P n → Keeps P (if b then m else n)
  Keeps-if true m n km kn = km
  Keeps-if false m n km kn = kn

module _ {S A B : Type 0} {P : S → Type 0} where
  pub Keeps-bind :
      (m : Exec S A) (f : A → Exec S B) → Keeps P m → ((a : A) → Keeps P (f a)) → Keeps P (m >>= f)
  Keeps-bind m f km kf = record { at = λ s h. go (m s) (km.at s h) }
    where
      go : (o : Outcome A × S) → P o.1 → P (and_then o f).1
      go (returns a, t) h = (kf a).at t h
      go (raises e, t) h = h

  pub Keeps-then : (m : Exec S A) (n : Exec S B) → Keeps P m → Keeps P n → Keeps P (m >> n)
  Keeps-then m n km kn = Keeps-bind m (λ _. n) km (λ _. kn)

  pub Keeps-catch :
      (m : Exec S A) (f : A → Exec S B) (g : Exc → Exec S B)
      → Keeps P m
      → ((a : A) → Keeps P (f a))
      → ((e : Exc) → Keeps P (g e))
      → Keeps P (catch m f g)
  Keeps-catch m f g km kf kg = record { at = λ s h. go (m s) (km.at s h) }
    where
      go : (o : Outcome A × S) → P o.1 → P (handle o f g).1
      go (returns a, t) h = (kf a).at t h
      go (raises e, t) h = (kg e).at t h

pub ruleset keeps_rules = (Keeps-pure, Keeps-raise, Keeps-if, Keeps-bind, Keeps-then, Keeps-catch)

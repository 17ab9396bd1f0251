-- ===== src/Exec.antt =====
-- Actions: Python code that reads and writes a state, and returns or raises. What was written before
-- a raise stays written.
pub mod Keeps
pub mod Triple
use hpc_relay.Base.{Bool, true, false, Option, none, some}
use hpc_relay.Result.{Exc, OpError, op_error, Result, ok, err}

pub data Outcome {ℓ} (A : Type ℓ) : Type ℓ where
  returns : A → Outcome A
  raises : Exc → Outcome A

abbrev pub Exec {ℓ} : Type ℓ → Type ℓ → Type ℓ
Exec S A = S → Outcome A × S

module _ {ℓ} {S A : Type ℓ} where
  abbrev pub pure : A → Exec S A
  pure a s = (returns a, s)

  abbrev pub raise : Exc → Exec S A
  raise e s = (raises e, s)

  abbrev pub gets : (S → A) → Exec S A
  gets f s = (returns (f s), s)

module _ {ℓ} {S A B : Type ℓ} where
  abbrev pub and_then : Outcome A × S → (A → Exec S B) → Outcome B × S
  and_then (returns a, s) f = f a s
  and_then (raises e, s) f = (raises e, s)

  infixl 10 ◌>>=◌ ◌>>◌
  abbrev pub ◌>>=◌ : Exec S A → (A → Exec S B) → Exec S B
  ◌>>=◌ m f s = and_then (m s) f

  abbrev pub ◌>>◌ : Exec S A → Exec S B → Exec S B
  ◌>>◌ m n s = and_then (m s) (λ _. n)

  abbrev pub handle : Outcome A × S → (A → Exec S B) → (Exc → Exec S B) → Outcome B × S
  handle (returns a, s) f handler = f a s
  handle (raises e, s) f handler = handler e s

  -- try: a = m  except e: handler e  else: f a
  abbrev pub catch : Exec S A → (A → Exec S B) → (Exc → Exec S B) → Exec S B
  catch m f handler s = handle (m s) f handler

module _ {ℓ} {S A : Type ℓ} where
  -- `try_run` of hpc_relay/result.py
  unfoldable pub try_run : Exec S A → Exec S (Result A)
  try_run fn = catch fn (λ a. pure (ok a)) (λ e. pure (err (op_error e)))

  -- `unwrap`
  unfoldable pub unwrap : Result A → Exec S A
  unwrap (ok a) = pure a
  unwrap (err e) = raise e.err

-- ===== src/Exec.antt =====
-- Handlers that change a state and may raise. What was written before a raise stays written, so
-- the state comes back beside the error too.
pub mod Respects
pub mod Rules
use aurum_platform.Common.{◌≡◌, refl, Bool, true, false, Option, none, some, if◌then◌else◌}
use aurum_platform.Errors.{Exn}

pub data Result {ℓ} (A : Type ℓ) : Type ℓ where
  ok : A → Result A
  err : Exn → Result A

abbrev pub Exec {ℓ} : Type ℓ → Type ℓ → Type ℓ
Exec S A = S → Result A × S

module _ {ℓ} {S A : Type ℓ} where
  unfoldable pub pure : A → Exec S A
  pure a s = (ok a, s)

  unfoldable pub raise : Exn → Exec S A
  raise e s = (err e, s)

  unfoldable pub gets : (S → A) → Exec S A
  gets f s = (ok (f s), s)

  -- `if x is None: raise e`, and `x` otherwise
  unfoldable pub or_raise : Option A → Exn → Exec S A
  or_raise none e s = (err e, s)
  or_raise (some a) e s = (ok a, s)

module _ {S : Type 0} where
  unfoldable pub modify : (S → S) → Exec S (Unit {0})
  modify f s = (ok tt, f s)

  -- `if not b: raise e`
  unfoldable pub require : Bool → Exn → Exec S (Unit {0})
  require true e s = (ok tt, s)
  require false e s = (err e, s)

module _ {ℓ} {S A B : Type ℓ} where
  abbrev pub continue : Result A → (A → Exec S B) → Exec S B
  continue (ok a) f s = f a s
  continue (err e) f s = (err e, s)

  infixl 10 ◌>>=◌ ◌>>◌
  -- Who opens this opens the basic actions too.
  unfoldable pub ◌>>=◌ : Exec S A → (A → Exec S B) → Exec S B
  unfolding pure raise gets or_raise modify require
  ◌>>=◌ first f s = let (result, after) = first s in continue result f after

  abbrev pub ◌>>◌ : Exec S A → Exec S B → Exec S B
  first >> next = first >>= λ _. next

-- `try: m` with an `except` for every exception; the handler raises again what it does not catch.
module _ {S A : Type 0} where
  abbrev pub recover : Result A → (Exn → Exec S A) → Exec S A
  recover (ok a) h s = (ok a, s)
  recover (err e) h s = h e s

  unfoldable pub handle : Exec S A → (Exn → Exec S A) → Exec S A
  handle m h s = let (result, after) = m s in recover result h after

  -- The outcome as a value.
  unfoldable pub attempt : Exec S A → Exec S (Result A)
  attempt m s = let (result, after) = m s in (ok result, after)

-- `(m s)` ended by raising.
abbrev pub Raised {ℓ} : {A : Type ℓ} → Result A → Type 0
Raised (ok a) = ⊥
Raised (err e) = Unit

pub Raised-not_ok {ℓ} : {A : Type ℓ} (x : Result A) (a : A) → Raised x → ¬ (x ≡ ok a)
Raised-not_ok (ok b) a h e = h
Raised-not_ok (err e) a h p = cc

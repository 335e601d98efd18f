-- ===== src/Common/Keeps.antt =====
-- What the calls that change a state leave as it was: one rule for each way to build such a call.
use vroom.Common.{Bool, true, false, Option, none, some, if◌then◌else◌}
use vroom.Common.Outcome.{Outcome, ok, err, panic, spin, Error}
use vroom.Common.Stateful.{Stateful, pure, raise, lift, unwrap, ◌>>=◌}

-- However the call ends, it leaves a state with `P` if it finds one.
pub record Keeps {S A : Type 0} (P : S → Type 0) (m : Stateful S A) : Type 0 where
  pub holds : (s : S) → P s → P (m s).1

module _ {S A : Type 0} {P : S → Type 0} where
  pub Keeps-lift : (r : Outcome A) → Keeps P (lift r)
  Keeps-lift r = record { holds = λ s p. p }

  pub Keeps-pure : (a : A) → Keeps P (pure a)
  Keeps-pure a = record { holds = λ s p. p }

  pub Keeps-raise : (e : Error) → Keeps {A = A} P (raise e)
  Keeps-raise e = record { holds = λ s p. p }

  pub Keeps-unwrap : (o : Option A) → Keeps P (unwrap o)
  Keeps-unwrap none = record { holds = λ s p. p }
  Keeps-unwrap (some a) = record { holds = λ s p. p }

  pub Keeps-if :
      (b : Bool) (m n : Stateful S A) → Keeps P m → Keeps P n → Keeps P (if b then m else n)
  Keeps-if true m n km kn = km
  Keeps-if false m n km kn = kn

module _ {S A B : Type 0} {P : S → Type 0} where
  after :
      (f : A → Stateful S B)
      → ((a : A) → Keeps P (f a))
      → (r : Outcome A) (s : S) → P s
      → P
          (elim r as (λ x. Outcome B × S) [
            | ok a ↦ f a s
            | err e ↦ (err e, s)
            | panic ↦ (panic, s)
            | spin ↦ (spin, s)
          ]).1
  after f kf (ok a) s p = (kf a).holds s p
  after f kf (err e) s p = p
  after f kf panic s p = p
  after f kf spin s p = p

  pub Keeps-bind :
      (m : Stateful S A) (f : A → Stateful S B)
      → Keeps P m
      → ((a : A) → Keeps P (f a))
      → Keeps P (m >>= f)
  Keeps-bind m f km kf = record { holds = λ s p. after f kf (m s).0 (m s).1 (km.holds s p) }

  pub Keeps-elim :
      (o : Option A) (m : Stateful S B) (f : A → Stateful S B)
      → Keeps P m
      → ((a : A) → Keeps P (f a))
      → Keeps P (elim o as (λ x. Stateful S B) [ none ↦ m | some a ↦ f a ])
  Keeps-elim none m f km kf = km
  Keeps-elim (some a) m f km kf = kf a

pub ruleset keeps_rules = (Keeps-lift, Keeps-pure, Keeps-raise, Keeps-unwrap, Keeps-if, Keeps-bind)

-- The value of a call has a property, if there is a value.
abbrev pub Gives : {A : Type 0} → (A → Type 0) → Outcome A → Type 0
Gives P (ok a) = P a
Gives P (err e) = Unit {0}
Gives P panic = Unit {0}
Gives P spin = Unit {0}

-- If the call has a value, that has the property.
pub record Yields {S A : Type 0} (Q : A → Type 0) (m : Stateful S A) : Type 0 where
  pub gives : (s : S) → Gives Q (m s).0

module _ {S A B : Type 0} {P : A → Type 0} {Q : B → Type 0} where
  next :
      (f : A → Stateful S B)
      → ((a : A) → P a → Yields Q (f a))
      → (r : Outcome A) (s : S) → Gives P r
      → Gives Q
          (elim r as (λ x. Outcome B × S) [
            | ok a ↦ f a s
            | err e ↦ (err e, s)
            | panic ↦ (panic, s)
            | spin ↦ (spin, s)
          ]).0
  next f kf (ok a) s p = (kf a p).gives s
  next f kf (err e) s p = tt
  next f kf panic s p = tt
  next f kf spin s p = tt

  pub Yields-bind :
      (m : Stateful S A) (f : A → Stateful S B)
      → Yields P m
      → ((a : A) → P a → Yields Q (f a))
      → Yields Q (m >>= f)
  Yields-bind m f km kf = record { gives = λ s. next f kf (m s).0 (m s).1 (km.gives s) }

pub Yields-pure : {S A : Type 0} {Q : A → Type 0} (a : A) → Q a → Yields {S = S} Q (pure a)
Yields-pure a q = record { gives = λ s. q }

-- Of any call.
pub Yields-any : {S A : Type 0} (m : Stateful S A) → Yields (λ a. Unit {0}) m
Yields-any m = record { gives = λ s. nothing (m s).0 }
  where
    nothing : {A : Type 0} (r : Outcome A) → Gives (λ a. Unit {0}) r
    nothing (ok a) = tt
    nothing (err e) = tt
    nothing panic = tt
    nothing spin = tt

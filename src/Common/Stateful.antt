-- ===== src/Common/Stateful.antt =====
-- A call that changes a state `S`: it ends somehow, and what it has changed stays changed also after
-- an `Err`.
use vroom.Common.Outcome.{Outcome, ok, err, panic, spin, Error}
use mathlib.Core.Option.{Option, none, some}
use native.Mathlib.Omega.{arith}
use mathlib.Core.Path.{◌≡◌, refl, ap}

abbrev pub Stateful : Type 0 → Type 0 → Type 0
Stateful S A = S → Outcome A × S

module _ {S : Type 0} where
  abbrev pub pure : {A : Type 0} → A → Stateful S A
  pure a s = (ok a, s)

  abbrev pub raise : {A : Type 0} → Error → Stateful S A
  raise e s = (err e, s)

  abbrev pub get : Stateful S S
  get s = (ok s, s)

  -- A part that changes no state.
  abbrev pub lift : {A : Type 0} → Outcome A → Stateful S A
  lift r s = (r, s)

  infixl 5 ◌>>=◌ ◌>>◌
  abbrev pub ◌>>=◌ : {A B : Type 0} → Stateful S A → (A → Stateful S B) → Stateful S B
  ◌>>=◌ m f s =
      let (r, s') = m s in
      elim r [ ok a ↦ f a s' | err e ↦ (err e, s') | panic ↦ (panic, s') | spin ↦ (spin, s') ]

  abbrev pub ◌>>◌ : {A B : Type 0} → Stateful S A → Stateful S B → Stateful S B
  m >> k = m >>= λ _. k

  -- `Option::unwrap`
  abbrev pub unwrap : {A : Type 0} → Option A → Stateful S A
  unwrap none s = (panic, s)
  unwrap (some a) s = (ok a, s)

  pub bind-ok :
      {A B : Type 0} (m : Stateful S A) (f : A → Stateful S B) {s s' : S} {a : A}
      → m s ≡ (ok a, s')
      → (m >>= f) s ≡ f a s'
  bind-ok {A} {B} m f e =
      ap
        (λ r. elim r.0 as (λ x. Outcome B × S) [
          | ok a ↦ f a r.1
          | err e ↦ (err e, r.1)
          | panic ↦ (panic, r.1)
          | spin ↦ (spin, r.1)
        ])
        e

  pub bind-err :
      {A B : Type 0} (m : Stateful S A) (f : A → Stateful S B) {s s' : S} {e : Error}
      → m s ≡ (err e, s')
      → (m >>= f) s ≡ (err e, s')
  bind-err {A} {B} m f h =
      ap
        (λ r. elim r.0 as (λ x. Outcome B × S) [
          | ok a ↦ f a r.1
          | err e ↦ (err e, r.1)
          | panic ↦ (panic, r.1)
          | spin ↦ (spin, r.1)
        ])
        h

  pub bind-spin :
      {A B : Type 0} (m : Stateful S A) (f : A → Stateful S B) {s s' : S}
      → m s ≡ (spin, s')
      → (m >>= f) s ≡ (spin, s')
  bind-spin {A} {B} m f h =
      ap
        (λ r. elim r.0 as (λ x. Outcome B × S) [
          | ok a ↦ f a r.1
          | err e ↦ (err e, r.1)
          | panic ↦ (panic, r.1)
          | spin ↦ (spin, r.1)
        ])
        h

  pub bind-panic :
      {A B : Type 0} (m : Stateful S A) (f : A → Stateful S B) {s s' : S}
      → m s ≡ (panic, s')
      → (m >>= f) s ≡ (panic, s')
  bind-panic {A} {B} m f h =
      ap
        (λ r. elim r.0 as (λ x. Outcome B × S) [
          | ok a ↦ f a r.1
          | err e ↦ (err e, r.1)
          | panic ↦ (panic, r.1)
          | spin ↦ (spin, r.1)
        ])
        h

  -- A chain that succeeds has a first part that succeeds.
  pub bind-inv :
      {A B : Type 0} (m : Stateful S A) (f : A → Stateful S B) {s s'' : S} {b : B}
      → (m >>= f) s ≡ (ok b, s'')
      → (a : A) × (s' : S) × (m s ≡ (ok a, s')) × (f a s' ≡ (ok b, s''))
  bind-inv {A} {B} m f {s} {s''} {b} h = goes (m s).0 (m s).1 refl h
    where
      goes :
          (r : Outcome A) (s' : S)
          → m s ≡ (r, s')
          → (elim r as (λ x. Outcome B × S) [
            | ok a ↦ f a s'
            | err e ↦ (err e, s')
            | panic ↦ (panic, s')
            | spin ↦ (spin, s')
          ])
            ≡ (ok b, s'')
          → (a : A) × (s' : S) × (m s ≡ (ok a, s')) × (f a s' ≡ (ok b, s''))
      goes (ok a) s' e h = (a, s', e, h)
      goes (err x) s' e h = absurd (ground (arith, h))
      goes panic s' e h = absurd (ground (arith, h))
      goes spin s' e h = absurd (ground (arith, h))

pub ok_inj : {A S : Type 0} {a b : A} {s s' : S} → Path (Outcome A × S) (ok a, s) (ok b, s') → a ≡ b
ok_inj {A} {S} {a} h = ap (λ (r : Outcome A × S). elim r.0 as (λ x. A) [ ok x ↦ x | _ ↦ a ]) h

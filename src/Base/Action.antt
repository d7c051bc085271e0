-- ===== src/Base/Action.antt =====
-- A service function: it reads and changes the store, and returns a value or raises. The store is
-- the committed database with the published events, so it comes back after a raise too.
use mathlib.Core.Path.{◌≡◌, refl}
use mathlib.Core.Logic.{◌⊎◌, inl, inr}
use mathlib.Core.Bool.{Bool}
use mathlib.Core.Option.{Option, none, some}
use campus_agent.Base.Tests.{if◌then◌else◌}

pub data Result (E A : Type 0) : Type 0 where
  ok : A → Result E A
  err : E → Result E A

pub Result-cases :
    {E A : Type 0} (r : Result E A) → ((a : A) × (r ≡ ok a)) ⊎ ((e : E) × (r ≡ err e))
Result-cases (ok a) = inl (a, refl)
Result-cases (err e) = inr (e, refl)

abbrev pub Action : Type 0 → Type 0 → Type 0 → Type 0
Action S E A = S → Result E A × S

module _ {S E A : Type 0} where
  abbrev pub return : A → Action S E A
  return a s = (ok a, s)

  abbrev pub raise : E → Action S E A
  raise e s = (err e, s)

  -- A query.
  abbrev pub gets : (S → A) → Action S E A
  gets f s = (ok (f s), s)

  -- A query whose missing answer is an error.
  abbrev pub require : (S → Option A) → E → Action S E A
  require f e s = (elim (f s) [ none ↦ err e | some a ↦ ok a ], s)

module _ {S E : Type 0} where
  abbrev pub raise_if : Bool → E → Action S E (Unit {0})
  raise_if b e s = (if b then err e else ok tt, s)

  -- `if b: m`
  abbrev pub when : Bool → Action S E (Unit {0}) → Action S E (Unit {0})
  when b m s = if b then m s else (ok tt, s)

  -- The changes of a unit of work and its commit.
  abbrev pub modify : (S → S) → Action S E (Unit {0})
  modify f s = (ok tt, f s)

infixl 5 ◌>>=◌ ◌>>◌
abbrev pub ◌>>=◌ : {S E A B : Type 0} → Action S E A → (A → Action S E B) → Action S E B
◌>>=◌ m f s = let (r, s') = m s in elim r [ ok a ↦ f a s' | err e ↦ (err e, s') ]

abbrev pub ◌>>◌ : {S E A B : Type 0} → Action S E A → Action S E B → Action S E B
m >> k = m >>= λ _. k

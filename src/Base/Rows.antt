-- ===== src/Base/Rows.antt =====
-- Lists measured by native numbers, and the queries that the repositories make of a table: the
-- first row that meets a condition, all such rows, their number, and a change of one row.
use Prim.Native.Nat.{ℕ, zero, suc, ◌+◌}
use mathlib.Core.Bool.{Bool, true, false}
use mathlib.Core.Option.{Option, none, some}
use mathlib.Core.List.{List, [], ◌∷◌}
use campus_agent.Base.Tests.{if◌then◌else◌}

-- A Boolean as a number: what one row adds to a count.
abbrev pub to_ℕ : Bool → ℕ
to_ℕ true = 1
to_ℕ false = 0

module _ {ℓ} {A : Type ℓ} where
  abbrev pub length : List A → ℕ
  length [] = 0
  length (_ ∷ xs) = suc (length xs)

  abbrev pub take : ℕ → List A → List A
  take zero xs = []
  take (suc n) [] = []
  take (suc n) (x ∷ xs) = x ∷ take n xs

  -- `.filter(p).first()`, or `scalar_one_or_none()` where the table has one such row at most.
  unfoldable pub find : (A → Bool) → List A → Option A
  find p [] = none
  find p (x ∷ xs) = if p x then some x else find p xs

  -- `.filter(p).all()`
  unfoldable pub select : (A → Bool) → List A → List A
  select p [] = []
  select p (x ∷ xs) = let rest = select p xs in if p x then x ∷ rest else rest

  -- `.filter(p).count()`
  unfoldable pub count_if : (A → Bool) → List A → ℕ
  count_if p [] = 0
  count_if p (x ∷ xs) = to_ℕ (p x) + count_if p xs

  -- An assignment to the attributes of the row that `find p` has returned.
  unfoldable pub update_first : (A → Bool) → (A → A) → List A → List A
  update_first p f [] = []
  update_first p f (x ∷ xs) = if p x then f x ∷ xs else x ∷ update_first p f xs

  -- A bulk `UPDATE … WHERE p`, or a loop over `select p` that assigns to each row.
  unfoldable pub update_all : (A → Bool) → (A → A) → List A → List A
  update_all p f [] = []
  update_all p f (x ∷ xs) = (if p x then f x else x) ∷ update_all p f xs

  -- `all(p x for x in xs)` and `any(p x for x in xs)`
  unfoldable pub all : (A → Bool) → List A → Bool
  all p [] = true
  all p (x ∷ xs) = if p x then all p xs else false

  unfoldable pub any : (A → Bool) → List A → Bool
  any p [] = false
  any p (x ∷ xs) = if p x then true else any p xs

-- ===== src/Base/Table.antt =====
-- How the queries of a table answer after a row is changed or added.
use Prim.Native.Nat.{◌+◌, ◌<◌}
use mathlib.Core.Path.{◌≡◌, refl, ap, ◌∙◌}
use mathlib.Core.Logic.{∥∥₁_elim, ◌⊎◌}
use native.Mathlib.Nat.{ℕ_set}
use mathlib.Core.Bool.{Bool, true, false}
use mathlib.Core.Option.{none, some}
use mathlib.Core.List.{List, [], ◌∷◌, ◌++◌, Perm, Permᴰ}
use native.Mathlib.Omega.{arith}
use campus_agent.Base.Tests.{if◌then◌else◌}
use campus_agent.Base.Rows.{to_ℕ, find, count_if, update_first, update_all, select, length}

module _ {ℓ} {A : Type ℓ} where
  pub find-holds : (p : A → Bool) (t : List A) {x : A} → find p t ≡ some x → p x ≡ true
  unfolding find
  find-holds p [] h = cc
  find-holds p (y ∷ t) {x} h = ground (arith, find-holds p t {x = x})

  pub find-count_if_zero : (p : A → Bool) (t : List A) → count_if p t ≡ 0 → find p t ≡ none
  unfolding count_if find
  find-count_if_zero p [] h = refl
  find-count_if_zero p (y ∷ t) h = ground (arith, find-count_if_zero p t)

  pub count_if-find-none : (p : A → Bool) (t : List A) → find p t ≡ none → count_if p t ≡ 0
  unfolding find count_if
  count_if-find-none p [] h = refl
  count_if-find-none p (y ∷ t) h = ground (arith, count_if-find-none p t)

  pub count_if-find-some :
      (p : A → Bool) (t : List A) {x : A} → find p t ≡ some x → 0 < count_if p t
  unfolding find count_if
  count_if-find-some p [] h = cc
  count_if-find-some p (y ∷ t) {x} h = ground (arith, count_if-find-some p t {x = x})

  pub count_if-find_holds :
      (p q : A → Bool) (t : List A) (x : A) → find p t ≡ some x → q x ≡ true → 0 < count_if q t
  unfolding find count_if
  count_if-find_holds p q [] x h k = cc
  count_if-find_holds p q (y ∷ t) x h k = ground (arith, count_if-find_holds p q t x)

  -- One changed row moves a count by what the row itself counted before and counts after.
  pub count_if-update_first :
      (q p : A → Bool) (f : A → A) (t : List A) (x : A)
      → find p t ≡ some x
      → count_if q (update_first p f t) + to_ℕ (q x) ≡ count_if q t + to_ℕ (q (f x))
  unfolding find count_if update_first
  count_if-update_first q p f [] x h = cc
  count_if-update_first q p f (y ∷ t) x h = ground (arith, count_if-update_first q p f t x)

  pub count_if-append :
      (q : A → Bool) (t u : List A) → count_if q (t ++ u) ≡ count_if q t + count_if q u
  unfolding count_if
  count_if-append q [] u = omega arith
  count_if-append q (y ∷ t) u = omega (arith, count_if-append q t u)

  pub find-update_first_self :
      (p : A → Bool) (f : A → A) (t : List A) (x : A)
      → find p t ≡ some x
      → p (f x) ≡ true
      → find p (update_first p f t) ≡ some (f x)
  unfolding find update_first
  find-update_first_self p f [] x h k = cc
  find-update_first_self p f (y ∷ t) x h k = ground (arith, find-update_first_self p f t x)

  -- A query that neither sees the old row nor the new one has the same answer as before.
  pub find-update_first_ne :
      (q p : A → Bool) (f : A → A) (t : List A)
      → ((x : A) → p x ≡ true → q x ≡ false)
      → ((x : A) → p x ≡ true → q (f x) ≡ false)
      → find q (update_first p f t) ≡ find q t
  unfolding find update_first
  find-update_first_ne q p f [] a b = refl
  find-update_first_ne q p f (y ∷ t) a b =
      ground (arith, a y, b y, find-update_first_ne q p f t a b)

  pub find-append :
      (q : A → Bool) (t : List A) (y : A)
      → find q t ≡ none
      → find q (t ++ y ∷ []) ≡ (if q y then some y else none)
  unfolding find
  find-append q [] y h = refl
  find-append q (x ∷ t) y h = ground (arith, find-append q t y)

  pub find-append_some :
      (q : A → Bool) (t u : List A) {x : A} → find q t ≡ some x → find q (t ++ u) ≡ some x
  unfolding find
  find-append_some q [] u h = cc
  find-append_some q (y ∷ t) u {x} h = ground (arith, find-append_some q t u {x = x})

  pub length-select : (p : A → Bool) (t : List A) → length (select p t) ≡ count_if p t
  unfolding select count_if
  length-select p [] = refl
  length-select p (y ∷ t) = ground (arith, length-select p t)

  -- After a bulk update that falsifies its condition on the rows it changes, none meets it.
  pub count_if-update_all_none :
      (p q : A → Bool) (f : A → A) (t : List A)
      → ((x : A) → p x ≡ true → q (f x) ≡ false)
      → ((x : A) → p x ≡ false → q x ≡ false)
      → count_if q (update_all p f t) ≡ 0
  unfolding count_if update_all
  count_if-update_all_none p q f [] a b = refl
  count_if-update_all_none p q f (y ∷ t) a b =
      ground (arith, a y, b y, count_if-update_all_none p q f t a b)

  -- The rows that meet a test after a bulk update, if it falsifies the test on each row it changes:
  -- those that met the test before and were not changed.
  pub select-update_all :
      (p q r : A → Bool) (f : A → A) (t : List A)
      → ((x : A) → p x ≡ true → q (f x) ≡ false)
      → ((x : A) → p x ≡ true → r x ≡ false)
      → ((x : A) → p x ≡ false → r x ≡ q x)
      → select q (update_all p f t) ≡ select r t
  unfolding select update_all
  select-update_all p q r f [] a b c = refl
  select-update_all p q r f (y ∷ t) a b c =
      ground (arith, a y, b y, c y, select-update_all p q r f t a b c)

  -- A row that a bulk update leaves where a query finds it.
  pub find-update_all :
      (q p : A → Bool) (f : A → A) (t : List A) (x : A)
      → ((y : A) → q (f y) ≡ q y)
      → find q t ≡ some x
      → find q (update_all p f t) ≡ some (if p x then f x else x)
  unfolding find update_all
  find-update_all q p f [] x a h = cc
  find-update_all q p f (y ∷ t) x a h = ground (arith, a y, find-update_all q p f t x a)

  -- A change that a query does not see keeps its count.
  pub count_if-update_first_same :
      (q p : A → Bool) (f : A → A) (t : List A)
      → ((x : A) → q (f x) ≡ q x)
      → count_if q (update_first p f t) ≡ count_if q t
  unfolding count_if update_first
  count_if-update_first_same q p f [] a = refl
  count_if-update_first_same q p f (y ∷ t) a =
      ground (arith, a y, count_if-update_first_same q p f t a)

  pub count_if-update_all_same :
      (q p : A → Bool) (f : A → A) (t : List A)
      → ((x : A) → q (f x) ≡ q x)
      → count_if q (update_all p f t) ≡ count_if q t
  unfolding count_if update_all
  count_if-update_all_same q p f [] a = refl
  count_if-update_all_same q p f (y ∷ t) a = ground (arith, a y, count_if-update_all_same q p f t a)

  -- A row that a change of another row leaves where a query finds it.
  pub find-update_first_other :
      (q p : A → Bool) (f : A → A) (t : List A) (x : A)
      → ((y : A) → q (f y) ≡ q y)
      → p x ≡ false
      → find q t ≡ some x
      → find q (update_first p f t) ≡ some x
  unfolding find update_first
  find-update_first_other q p f [] x a b h = cc
  find-update_first_other q p f (y ∷ t) x a b h =
      ground (arith, a y, find-update_first_other q p f t x a b)

  -- The row that a query finds is found after any change of one row, changed or not.
  pub find-update_first_either :
      (q p : A → Bool) (f : A → A) (t : List A) (x : A)
      → ((y : A) → q (f y) ≡ q y)
      → find q t ≡ some x
      → (find q (update_first p f t) ≡ some x) ⊎ (find q (update_first p f t) ≡ some (f x))
  unfolding find update_first
  find-update_first_either q p f [] x a h = cc
  find-update_first_either q p f (y ∷ t) x a h =
      ground (arith, a y, find-update_first_either q p f t x a)

  count_if-permᴰ : (q : A → Bool) {xs ys : List A} → Permᴰ xs ys → count_if q xs ≡ count_if q ys
  unfolding count_if
  count_if-permᴰ q Permᴰ.nil = refl
  count_if-permᴰ q (Permᴰ.cons e r) = omega (arith, ap (λ z. to_ℕ (q z)) e, count_if-permᴰ q r)
  count_if-permᴰ q (Permᴰ.swap e d) = omega (arith, ap (λ z. to_ℕ (q z)) e, ap (λ z. to_ℕ (q z)) d)
  count_if-permᴰ q (Permᴰ.trans r r') = count_if-permᴰ q r ∙ count_if-permᴰ q r'

  -- A count does not depend on the order of the rows.
  pub count_if-perm : (q : A → Bool) {xs ys : List A} → Perm xs ys → count_if q xs ≡ count_if q ys
  count_if-perm q r = ∥∥₁_elim r (ℕ_set _ _) (count_if-permᴰ q)

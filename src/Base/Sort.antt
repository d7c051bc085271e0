-- ===== src/Base/Sort.antt =====
-- Python's `sorted` with a numeric key: a stable sort, as an insertion sort.
use mathlib.Core.Path.{◌≡◌, refl, subst}
use mathlib.Core.Logic.{inl, inr}
use mathlib.Core.Bool.{Bool, true, false}
use mathlib.Core.List.{List, [], ◌∷◌, Perm, Memᴰ}
use mathlib.Core.List.Perm
use Prim.Native.Nat.{ℕ, ◌≤◌}
use native.Mathlib.Omega.{arith}
use campus_agent.Base.Tests.{if◌then◌else◌, leb, Bool-cases}
use campus_agent.Base.Rows.{all}

module _ {ℓ} {A : Type ℓ} (key : A → ℕ) where
  -- `x` goes before the rows of the same key: it stood before them.
  unfoldable pub insert_by : A → List A → List A
  insert_by x [] = x ∷ []
  insert_by x (y ∷ ys) =
      let rest = insert_by x ys in if leb (key x) (key y) then x ∷ y ∷ ys else y ∷ rest

  unfoldable pub sort_by : List A → List A
  sort_by [] = []
  sort_by (x ∷ xs) = insert_by x (sort_by xs)

  -- No row has a smaller key than one before it.
  unfoldable pub is_sorted_by : List A → Bool
  is_sorted_by [] = true
  is_sorted_by (x ∷ xs) = if all (λ y. leb (key x) (key y)) xs then is_sorted_by xs else false

  pub insert_by-perm : (x : A) (xs : List A) → Perm (insert_by x xs) (x ∷ xs)
  unfolding insert_by
  insert_by-perm x [] = Perm.refl (x ∷ [])
  insert_by-perm x (y ∷ ys) = elim (Bool-cases (leb (key x) (key y))) [
    | inl e ↦ rw e (Perm.refl (x ∷ y ∷ ys))
    | inr e ↦ rw e (Perm.trans (Perm.cons y (insert_by-perm x ys)) (Perm.swap x y ys))
  ]

  pub sort_by-perm : (xs : List A) → Perm (sort_by xs) xs
  unfolding sort_by
  sort_by-perm [] = Perm.refl []
  sort_by-perm (x ∷ xs) = Perm.trans (insert_by-perm x (sort_by xs)) (Perm.cons x (sort_by-perm xs))

  all-insert_by :
      (p : A → Bool) (x : A) (ys : List A)
      → p x ≡ true
      → all p ys ≡ true
      → all p (insert_by x ys) ≡ true
  unfolding insert_by all
  all-insert_by p x [] h k = ground arith
  all-insert_by p x (y ∷ ys) h k = ground (arith, all-insert_by p x ys)

  all-insert_by_eq : (p : A → Bool) (x : A) (ys : List A) → all p (insert_by x ys) ≡ all p (x ∷ ys)
  unfolding insert_by all
  all-insert_by_eq p x [] = refl
  all-insert_by_eq p x (y ∷ ys) = ground (arith, all-insert_by_eq p x ys)

  -- A sort changes nothing that holds of all rows.
  pub all-sort_by : (p : A → Bool) (xs : List A) → all p (sort_by xs) ≡ all p xs
  unfolding sort_by all
  all-sort_by p [] = refl
  all-sort_by p (x ∷ xs) = ground (arith, all-insert_by_eq p x (sort_by xs), all-sort_by p xs)

  mem-insert_by : {a : A} (x : A) (ys : List A) → Memᴰ a (insert_by x ys) → Memᴰ a (x ∷ ys)
  unfolding insert_by
  mem-insert_by x [] m = m
  mem-insert_by {a} x (y ∷ ys) m = elim (Bool-cases (leb (key x) (key y))) [
    | inl e ↦ subst (λ b. Memᴰ a (if b then x ∷ y ∷ ys else y ∷ insert_by x ys)) e m
    | inr e ↦ elim (subst (λ b. Memᴰ a (if b then x ∷ y ∷ ys else y ∷ insert_by x ys)) e m) [
      | Memᴰ.head h ↦ Memᴰ.tail (Memᴰ.head h)
      | Memᴰ.tail t ↦ elim (mem-insert_by x ys t) [
        | Memᴰ.head h ↦ Memᴰ.head h
        | Memᴰ.tail u ↦ Memᴰ.tail (Memᴰ.tail u)
      ]
    ]
  ]

  pub mem-sort_by : {a : A} (xs : List A) → Memᴰ a (sort_by xs) → Memᴰ a xs
  unfolding sort_by
  mem-sort_by [] m = m
  mem-sort_by (x ∷ xs) m = elim (mem-insert_by x (sort_by xs) m) [
    | Memᴰ.head h ↦ Memᴰ.head h
    | Memᴰ.tail t ↦ Memᴰ.tail (mem-sort_by xs t)
  ]

  all-leb :
      (a b : ℕ) (ys : List A)
      → a ≤ b
      → all (λ y. leb b (key y)) ys ≡ true
      → all (λ y. leb a (key y)) ys ≡ true
  unfolding all
  all-leb a b [] h k = refl
  all-leb a b (y ∷ ys) h k = ground (arith, all-leb a b ys)

  insert_by-sorted :
      (x : A) (ys : List A) → is_sorted_by ys ≡ true → is_sorted_by (insert_by x ys) ≡ true
  unfolding insert_by is_sorted_by all
  insert_by-sorted x [] h = refl
  insert_by-sorted x (y ∷ ys) h = ground (
    arith,
    insert_by-sorted x ys,
    all-leb (key x) (key y) ys,
    all-insert_by (λ z. leb (key y) (key z)) x ys,
  )

  pub sort_by-sorted : (xs : List A) → is_sorted_by (sort_by xs) ≡ true
  unfolding sort_by is_sorted_by
  sort_by-sorted [] = refl
  sort_by-sorted (x ∷ xs) = insert_by-sorted x (sort_by xs) (sort_by-sorted xs)

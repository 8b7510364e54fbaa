-- ===== src/Common/Sort.antt =====
-- `Array.prototype.sort` with a comparator, which is stable (ECMAScript 2019): insertion of each
-- element, from the last to the first, before the first one that it does not come behind. The
-- comparator is given as the test `before_eq a b`, compare(a, b) ≤ 0.
use mathlib.Core.List.Perm
use mathlib.Core.Bool.{Bool, false, not, true, ◌||◌}
use mathlib.Core.List.{List, Perm, [], ◌++◌, ◌∷◌}
use mathlib.Core.Logic.{inl, inr, ◌⊎◌}
use mathlib.Core.Path.{refl, ◌≡◌}
use native.Mathlib.Omega.{arith}
use rustdesk_plus.Common.Lists.{All, All-filter, All-mono, all, all-filter, filter}
use rustdesk_plus.Common.Tests.{Bool-cases, if◌then◌else◌}

module _ {ℓ} {A : Type ℓ} (before_eq : A → A → Bool) where
  unfoldable pub insert_sorted : A → List A → List A
  insert_sorted x [] = x ∷ []
  insert_sorted x (y ∷ ys) = if before_eq x y then x ∷ y ∷ ys else y ∷ insert_sorted x ys

  unfoldable pub sort : List A → List A
  unfolding insert_sorted
  sort [] = []
  sort (x ∷ xs) = insert_sorted x (sort xs)

  insert_sorted-Perm : (x : A) (ys : List A) → Perm (insert_sorted x ys) (x ∷ ys)
  unfolding insert_sorted
  insert_sorted-Perm x [] = Perm.refl (x ∷ [])
  insert_sorted-Perm x (y ∷ ys) = elim (Bool-cases (before_eq x y)) [
    | inl first ↦ rw first (Perm.refl (x ∷ y ∷ ys))
    | inr second ↦ rw second (Perm.trans (Perm.cons y (insert_sorted-Perm x ys)) (Perm.swap x y ys))
  ]

  -- Sorting loses and doubles nothing.
  pub sort-Perm : (xs : List A) → Perm (sort xs) xs
  unfolding sort
  sort-Perm [] = Perm.refl []
  sort-Perm (x ∷ xs) = Perm.trans (insert_sorted-Perm x (sort xs)) (Perm.cons x (sort-Perm xs))

  abbrev pub IsBefore : A → A → Type 0
  IsBefore x y = before_eq x y ≡ true

  -- Each element comes before those behind it, or counts the same.
  abbrev pub IsSorted : List A → Type ℓ
  IsSorted [] = Unit
  IsSorted (x ∷ xs) = All (IsBefore x) xs × IsSorted xs

  pub filter-IsSorted : (p : A → Bool) (xs : List A) → IsSorted xs → IsSorted (filter p xs)
  filter-IsSorted p [] h = tt
  filter-IsSorted p (x ∷ xs) h = elim (Bool-cases (p x)) [
    | inl kept ↦ rw kept (All-filter (IsBefore x) p xs h.0, filter-IsSorted p xs h.1)
    | inr dropped ↦ rw dropped (filter-IsSorted p xs h.1)
  ]

  -- A comparator that compares any two elements, and is transitive.
  abbrev pub IsTotal : Type ℓ
  IsTotal = (x y : A) → (before_eq x y ≡ true) ⊎ (before_eq y x ≡ true)

  abbrev pub IsTransitive : Type ℓ
  IsTransitive = (x y z : A) → before_eq x y ≡ true → before_eq y z ≡ true → before_eq x z ≡ true

  module _ (total : IsTotal) (transitive : IsTransitive) where
    after_refused : (x y : A) → before_eq x y ≡ false → before_eq y x ≡ true
    after_refused x y h = elim (total x y) [ inl before ↦ cc | inr behind ↦ behind ]

    All-insert_sorted :
        (x y : A) (ys : List A)
        → IsBefore y x
        → All (IsBefore y) ys
        → All (IsBefore y) (insert_sorted x ys)
    unfolding insert_sorted
    All-insert_sorted x y [] h k = (h, tt)
    All-insert_sorted x y (z ∷ zs) h k = elim (Bool-cases (before_eq x z)) [
      | inl first ↦ rw first (h, k)
      | inr second ↦ rw second (k.0, All-insert_sorted x y zs h k.1)
    ]

    insert_sorted-IsSorted : (x : A) (ys : List A) → IsSorted ys → IsSorted (insert_sorted x ys)
    unfolding insert_sorted
    insert_sorted-IsSorted x [] h = (tt, tt)
    insert_sorted-IsSorted x (y ∷ ys) h = elim (Bool-cases (before_eq x y)) [
      | inl first ↦ rw first ((first, All-mono (λ z k. transitive x y z first k) ys h.0), h)
      | inr second ↦
          rw second (
            All-insert_sorted x y ys (after_refused x y second) h.0,
            insert_sorted-IsSorted x ys h.1,
          )
    ]

    pub sort-IsSorted : (xs : List A) → IsSorted (sort xs)
    unfolding sort
    sort-IsSorted [] = tt
    sort-IsSorted (x ∷ xs) = insert_sorted-IsSorted x (sort xs) (sort-IsSorted xs)

-- Sorting by a Boolean alone, true first: compare(a, b) is (b ? 1 : 0) - (a ? 1 : 0).
module _ {ℓ} {A : Type ℓ} (p : A → Bool) where
  abbrev pub true_first : A → A → Bool
  true_first a b = not (p b) || p a

  abbrev pub negated : A → Bool
  negated a = not (p a)

  insert_true : (x : A) (ys : List A) → p x ≡ true → insert_sorted true_first x ys ≡ x ∷ ys
  unfolding insert_sorted
  insert_true x [] h = refl
  insert_true x (y ∷ ys) h = ground arith

  insert_false :
      (x : A) (xs ys : List A)
      → p x ≡ false
      → all p xs ≡ true
      → all negated ys ≡ true
      → insert_sorted true_first x (xs ++ ys) ≡ xs ++ x ∷ ys
  unfolding insert_sorted
  insert_false x [] [] h k n = refl
  insert_false x [] (y ∷ ys) h k n = ground arith
  insert_false x (z ∷ xs) ys h k n = ground (arith, insert_false x xs ys h)

  -- The elements that satisfy the test come first, and each part keeps its order.
  pub sort-true_first : (xs : List A) → sort true_first xs ≡ filter p xs ++ filter negated xs
  unfolding sort
  sort-true_first [] = refl
  sort-true_first (x ∷ xs) = elim (Bool-cases (p x)) [
    | inl here ↦
        rw (sort-true_first xs, here) (insert_true x (filter p xs ++ filter negated xs) here)
    | inr behind ↦
        rw (sort-true_first xs, behind)
          (insert_false x (filter p xs) (filter negated xs) behind (all-filter p xs)
            (all-filter negated xs))
  ]

-- ===== src/Common/Lists.antt =====
-- Lists measured by native numbers, and the array methods of the source with a Boolean test.
use Prim.Native.Nat.{min, suc, zero, ℕ, ◌+◌, ◌<◌, ◌≤◌}
use mathlib.Core.Bool.{Bool, false, true, ◌&&◌, ◌||◌}
use mathlib.Core.List.{List, [], map, ◌++◌, ◌∷◌}
use mathlib.Core.Option.{Option, none, some}
use mathlib.Core.Path.{ap, refl, ◌≡◌}
use native.Mathlib.Omega.{arith}
use rustdesk_plus.Common.Tests.{if◌then◌else◌}

module _ {ℓ} {A : Type ℓ} where
  abbrev pub length : List A → ℕ
  length [] = 0
  length (x ∷ xs) = suc (length xs)

  abbrev pub get_elem? : List A → ℕ → Option A
  get_elem? [] i = none
  get_elem? (x ∷ xs) zero = some x
  get_elem? (x ∷ xs) (suc i) = get_elem? xs i

  abbrev pub take : ℕ → List A → List A
  take zero xs = []
  take (suc n) [] = []
  take (suc n) (x ∷ xs) = x ∷ take n xs

  -- The last element; `none` for the empty array.
  abbrev pub get_last? : List A → Option A
  get_last? [] = none
  get_last? (x ∷ []) = some x
  get_last? (x ∷ y ∷ xs) = get_last? (y ∷ xs)

  abbrev pub is_empty : List A → Bool
  is_empty [] = true
  is_empty (x ∷ xs) = false

  pub length-append : (xs ys : List A) → length (xs ++ ys) ≡ length xs + length ys
  length-append [] ys = omega arith
  length-append (x ∷ xs) ys = omega (arith, length-append xs ys)

  pub lt-length_of_get_elem? :
      (xs : List A) (i : ℕ) {x : A} → get_elem? xs i ≡ some x → i < length xs
  lt-length_of_get_elem? [] i h = cc
  lt-length_of_get_elem? (_ ∷ xs) zero h = omega arith
  lt-length_of_get_elem? (_ ∷ xs) (suc i) h = omega (arith, lt-length_of_get_elem? xs i h)

  pub length-take : (n : ℕ) (xs : List A) → length (take n xs) ≡ min n (length xs)
  length-take zero xs = omega arith
  length-take (suc n) [] = omega arith
  length-take (suc n) (x ∷ xs) = omega (arith, length-take n xs)

pub length-map {ℓ κ} :
    {A : Type ℓ} {B : Type κ} (f : A → B) (xs : List A) → length (map f xs) ≡ length xs
length-map f [] = refl
length-map f (x ∷ xs) = ap suc (length-map f xs)

-- The methods `filter`, `some`, `every`, `find`.
module _ {ℓ} {A : Type ℓ} (p : A → Bool) where
  abbrev pub filter : List A → List A
  filter [] = []
  filter (x ∷ xs) = if p x then x ∷ filter xs else filter xs

  abbrev pub any : List A → Bool
  any [] = false
  any (x ∷ xs) = p x || any xs

  abbrev pub all : List A → Bool
  all [] = true
  all (x ∷ xs) = p x && all xs

  abbrev pub find? : List A → Option A
  find? [] = none
  find? (x ∷ xs) = if p x then some x else find? xs

  pub filter-append : (xs ys : List A) → filter (xs ++ ys) ≡ filter xs ++ filter ys
  filter-append [] ys = refl
  filter-append (x ∷ xs) ys = ground (arith, filter-append xs ys)

  pub any-append : (xs ys : List A) → any (xs ++ ys) ≡ (any xs || any ys)
  any-append [] ys = refl
  any-append (x ∷ xs) ys = ground (arith, any-append xs ys)

  pub length-filter_le : (xs : List A) → length (filter xs) ≤ length xs
  length-filter_le [] = omega arith
  length-filter_le (x ∷ xs) = ground (arith, length-filter_le xs)

  pub filter_of_all : (xs : List A) → all xs ≡ true → filter xs ≡ xs
  filter_of_all [] h = refl
  filter_of_all (x ∷ xs) h = ground (arith, filter_of_all xs)

  pub all-filter : (xs : List A) → all (filter xs) ≡ true
  all-filter [] = refl
  all-filter (x ∷ xs) = ground (arith, all-filter xs)

-- What holds of each element, as a tuple that the tactics read.
module _ {ℓ κ} {A : Type ℓ} (P : A → Type κ) where
  abbrev pub All : List A → Type κ
  All [] = Unit
  All (x ∷ xs) = P x × All xs

  pub All-intro : ((x : A) → P x) → (xs : List A) → All xs
  All-intro g [] = tt
  All-intro g (x ∷ xs) = (g x, All-intro g xs)

  pub All-append : (xs ys : List A) → All xs → All ys → All (xs ++ ys)
  All-append [] ys h k = k
  All-append (x ∷ xs) ys (p, h) k = (p, All-append xs ys h k)

  pub All-filter : (p : A → Bool) (xs : List A) → All xs → All (filter p xs)
  All-filter p [] h = tt
  All-filter p (x ∷ xs) h = ground (arith, All-filter p xs h.1)

pub All-mono {ℓ κ} :
    {A : Type ℓ} {P Q : A → Type κ} (g : (a : A) → P a → Q a) (xs : List A) → All P xs → All Q xs
All-mono g [] h = tt
All-mono g (x ∷ xs) (p, h) = (g x p, All-mono g xs h)

pub all_mono {ℓ} :
    {A : Type ℓ} (p q : A → Bool)
    → ((x : A) → p x ≡ true → q x ≡ true)
    → (xs : List A) → all p xs ≡ true
    → all q xs ≡ true
all_mono p q h [] hs = refl
all_mono p q h (x ∷ xs) hs = ground (arith, h x, all_mono p q h xs)

-- ===== src/Base/Lists.antt =====
-- Lists as the program uses its arrays and sets: membership tests, `some`, `find`, `filter`.
use Prim.Native.Nat.{ℕ, zero, suc, ◌+◌, ◌≤◌}
use mathlib.Core.Path.{◌≡◌, refl}
use mathlib.Core.Logic.{inl, inr}
use mathlib.Core.List.{List, [], ◌∷◌, ◌++◌}
use mathlib.Core.Bool.{Bool, true, false, ◌&&◌, ◌||◌}
use mathlib.Core.Option.{Option, none, some}
use native.Mathlib.Omega.{arith}
use homelab_builder.Base.Tests.{Eq, ◌==◌, if◌then◌else◌, Bool-cases}

module _ {ℓ} {A : Type ℓ} where
  -- `xs.some(p)`
  abbrev pub any : (A → Bool) → List A → Bool
  any p [] = false
  any p (x ∷ xs) = p x || any p xs

  abbrev pub all : (A → Bool) → List A → Bool
  all p [] = true
  all p (x ∷ xs) = p x && all p xs

  -- `xs.length`
  abbrev pub length : List A → ℕ
  length [] = 0
  length (first ∷ rest) = suc (length rest)

  -- `xs.filter(p)`
  abbrev pub keep : (A → Bool) → List A → List A
  keep p [] = []
  keep p (x ∷ xs) = if p x then x ∷ keep p xs else keep p xs

  -- `xs.find(p)`
  abbrev pub find : (A → Bool) → List A → Option A
  find p [] = none
  find p (x ∷ xs) = if p x then some x else find p xs

  abbrev pub take : ℕ → List A → List A
  take (suc n) (first ∷ rest) = first ∷ take n rest
  take zero list = []
  take (suc n) [] = []

  abbrev pub drop : ℕ → List A → List A
  drop zero xs = xs
  drop (suc n) [] = []
  drop (suc n) (x ∷ xs) = drop n xs

  pub length-append : (xs ys : List A) → length (xs ++ ys) ≡ length xs + length ys
  length-append [] ys = omega arith
  length-append (x ∷ xs) ys = omega (arith, length-append xs ys)

  pub length-keep-le : (p : A → Bool) (xs : List A) → length (keep p xs) ≤ length xs
  length-keep-le p [] = omega arith
  length-keep-le p (x ∷ xs) = ground (arith, length-keep-le p xs)

  pub keep-true : (p : A → Bool) (xs : List A) → all p xs ≡ true → keep p xs ≡ xs
  keep-true p [] h = refl
  keep-true p (x ∷ xs) h = ground (arith, keep-true p xs)

  pub all-keep : (p : A → Bool) (xs : List A) → all p (keep p xs) ≡ true
  all-keep p [] = refl
  all-keep p (x ∷ xs) = ground (arith, all-keep p xs)

module _ {ℓ} {A : Type ℓ} ⦃e : Eq A⦄ where
  -- `set.has(a)`, `xs.includes(a)`
  abbrev pub contains : List A → A → Bool
  contains [] a = false
  contains (x ∷ xs) a = x == a || contains xs a

  -- `set.add(a)`: a set keeps its elements in the order of insertion.
  abbrev pub add : List A → A → List A
  add xs a = if contains xs a then xs else xs ++ a ∷ []

  pub contains-append :
      (xs ys : List A) (a : A) → contains (xs ++ ys) a ≡ (contains xs a || contains ys a)
  contains-append [] ys a = refl
  contains-append (x ∷ xs) ys a = ground (arith, contains-append xs ys a)

  pub contains-snoc :
      (xs : List A) (b a : A) → contains (xs ++ b ∷ []) a ≡ (contains xs a || b == a)
  contains-snoc xs b a = ground (arith, contains-append xs (b ∷ []) a)

  pub contains-add : (xs : List A) (b a : A) → contains (add xs b) a ≡ (contains xs a || b == a)
  contains-add xs b a = elim (Bool-cases (contains xs b)) [
    | inl old ↦ ground (arith, e.test_iff b a)
    | inr new ↦ ground (arith, contains-snoc xs b a)
  ]

  -- What holds of every member holds of all.
  pub all_of_contains :
      (p : A → Bool) (xs : List A) → ((a : A) → contains xs a ≡ true → p a ≡ true) → all p xs ≡ true
  all_of_contains p [] h = refl
  all_of_contains p (x ∷ xs) h =
      rw (h x (ground (arith, e.test_iff x x))) (all_of_contains p xs (λ a m. h a (ground arith)))

module _ {ℓ} {A : Type ℓ} (before : A → A → Bool) where
  abbrev pub insert : A → List A → List A
  insert a [] = a ∷ []
  insert a (b ∷ sorted) = if before a b then a ∷ b ∷ sorted else b ∷ insert a sorted

  -- A stable sort.
  unfoldable pub sort : List A → List A
  sort [] = []
  sort (a ∷ rest) = insert a (sort rest)

-- ===== src/Base/Sorting.antt =====
-- Sorting forgets the order of a list, as far as the order tells its elements apart.

use homelab_builder.Base.Lists.{insert, sort}
use mathlib.Core.Path.{◌≡◌, refl, ap, ◌∙◌}
use mathlib.Core.Bool.{Bool, true, ◌||◌}
use mathlib.Core.List.{List, [], ◌∷◌, map}
use native.Mathlib.Omega.{arith}

-- The lists have the same elements, and two of them change places only where `Can` lets them.
pub data Reordered {A : Type 0} (Can : A → A → Type 0) : List A → List A → Type 0 where
  nothing : Reordered Can [] []
  behind : (a : A) {xs ys : List A} → Reordered Can xs ys → Reordered Can (a ∷ xs) (a ∷ ys)
  exchanged : (a b : A) {xs : List A} → Can a b → Reordered Can (a ∷ b ∷ xs) (b ∷ a ∷ xs)
  after : {xs ys zs : List A} → Reordered Can xs ys → Reordered Can ys zs → Reordered Can xs zs

pub Reordered-map :
    {A B : Type 0} {Can : A → A → Type 0} {Could : B → B → Type 0} {xs ys : List A} (f : A → B)
    → ((a b : A) → Can a b → Could (f a) (f b))
    → Reordered Can xs ys
    → Reordered Could (map f xs) (map f ys)
Reordered-map f h nothing = nothing
Reordered-map f h (behind a r) = behind (f a) (Reordered-map f h r)
Reordered-map f h (exchanged a b c) = exchanged (f a) (f b) (h a b c)
Reordered-map f h (after r q) = after (Reordered-map f h r) (Reordered-map f h q)

pub record IsPreorder {A : Type 0} (before : A → A → Bool) : Type 0 where
  pub total : (a b : A) → (before a b || before b a) ≡ true
  pub trans : (a b c : A) → before a b ≡ true → before b c ≡ true → before a c ≡ true

module _ {A : Type 0} (before : A → A → Bool) (order : IsPreorder before) where
  insert_comm :
      (a b : A) (xs : List A)
      → (before a b ≡ true → before b a ≡ true → a ≡ b)
      → insert before a (insert before b xs) ≡ insert before b (insert before a xs)
  insert_comm a b [] same = ground (arith, order.total a b)
  insert_comm a b (x ∷ xs) same =
      ground (arith, order.total a b, order.trans a b x, order.trans b a x, insert_comm a b xs same)

  pub Reordered-sort :
      {Can : A → A → Type 0} {xs ys : List A}
      → ((a b : A) → Can a b → before a b ≡ true → before b a ≡ true → a ≡ b)
      → Reordered Can xs ys
      → sort before xs ≡ sort before ys
  unfolding sort
  Reordered-sort h nothing = refl
  Reordered-sort h (behind a r) = ap (insert before a) (Reordered-sort h r)
  Reordered-sort h (exchanged a b {xs} c) = insert_comm a b (sort before xs) (h a b c)
  Reordered-sort h (after r q) = Reordered-sort h r ∙ Reordered-sort h q

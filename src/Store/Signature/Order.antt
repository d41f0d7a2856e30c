-- ===== src/Store/Signature/Order.antt =====
-- builder-store.ts: the order of `sort` on texts, by their UTF-16 code units, is a total order.
use Prim.Native.Nat.{Ordering, compare}
use Prim.Native.Char.{Char, char, code}
use native.Mathlib.Omega.{compare-lt}
use text.Mathlib.TextEquality.{Char-path}
use homelab_builder.Base.{
  ℕ, ◌+◌, ◌-◌, ◌/◌, ◌%◌, ◌<◌, ◌≡◌, refl, sym, ◌⊎◌, inl, inr, true, ◌||◌, String, List, [], ◌∷◌,
  arith, ltb, nat_eq, IsPreorder, Bool-cases, false,
}
use homelab_builder.Text.{codes}
use homelab_builder.Store.Signature.{code_units, units_le, text_le}

units_le_total : (x y : List ℕ) → (units_le x y || units_le y x) ≡ true
units_le_total [] y = refl
units_le_total (a ∷ x) [] = refl
units_le_total (a ∷ x) (b ∷ y) = ground (arith, units_le_total x y)

units_le_trans : (x y z : List ℕ) → units_le x y ≡ true → units_le y z ≡ true → units_le x z ≡ true
units_le_trans [] y z h k = refl
units_le_trans (a ∷ x) [] z h k = cc
units_le_trans (a ∷ x) (b ∷ y) [] h k = cc
units_le_trans (a ∷ x) (b ∷ y) (c ∷ z) h k = ground (arith, units_le_trans x y z)

cons_same : (a b : ℕ) (x y : List ℕ) → a ≡ b → x ≡ y → a ∷ x ≡ b ∷ y
cons_same a b x y e f = rw (e, f) refl

units_le_antisym : (x y : List ℕ) → units_le x y ≡ true → units_le y x ≡ true → x ≡ y
units_le_antisym [] [] h k = refl
units_le_antisym [] (b ∷ y) h k = cc
units_le_antisym (a ∷ x) [] h k = cc
units_le_antisym (a ∷ x) (b ∷ y) h k =
    cons_same a b x y (ground arith) (units_le_antisym x y (ground arith) (ground arith))

abbrev IsBelow : Ordering → Type 0
IsBelow Ordering.lt = Unit
IsBelow Ordering.eq = ⊥
IsBelow Ordering.gt = ⊥

abbrev BothBelow : Ordering → Ordering → Type 0
BothBelow Ordering.lt o = IsBelow o
BothBelow Ordering.eq _ = ⊥
BothBelow Ordering.gt _ = ⊥

-- What `IsScalar` says of its three comparisons.
abbrev BelowOrBoth : Ordering → Ordering → Ordering → Type 0
BelowOrBoth Ordering.lt _ _ = Unit
BelowOrBoth Ordering.eq o p = BothBelow o p
BelowOrBoth Ordering.gt o p = BothBelow o p

-- A code point: below the surrogates, or above them.
IsPoint : ℕ → Type 0
IsPoint n = (n < 55296) ⊎ ((57343 < n) × (n < 1114112))

IsPoint-cases :
    (n : ℕ) (x y z : Ordering)
    → compare n 55296 ≡ x
    → compare 57343 n ≡ y
    → compare n 1114112 ≡ z
    → BelowOrBoth x y z
    → IsPoint n
unfolding IsPoint
IsPoint-cases n Ordering.lt y z e f g p = inl (compare-lt n 55296 e)
IsPoint-cases n Ordering.eq Ordering.lt Ordering.lt e f g p =
    inr (compare-lt 57343 n f, compare-lt n 1114112 g)
IsPoint-cases n Ordering.gt Ordering.lt Ordering.lt e f g p =
    inr (compare-lt 57343 n f, compare-lt n 1114112 g)
IsPoint-cases n Ordering.eq Ordering.lt Ordering.eq e f g p = absurd p
IsPoint-cases n Ordering.eq Ordering.lt Ordering.gt e f g p = absurd p
IsPoint-cases n Ordering.gt Ordering.lt Ordering.eq e f g p = absurd p
IsPoint-cases n Ordering.gt Ordering.lt Ordering.gt e f g p = absurd p
IsPoint-cases n Ordering.eq Ordering.eq z e f g p = absurd p
IsPoint-cases n Ordering.eq Ordering.gt z e f g p = absurd p
IsPoint-cases n Ordering.gt Ordering.eq z e f g p = absurd p
IsPoint-cases n Ordering.gt Ordering.gt z e f g p = absurd p

IsPoint-code : (c : Char) → IsPoint (code c)
unfolding IsPoint
IsPoint-code (char n p) =
    IsPoint-cases n (compare n 55296) (compare 57343 n) (compare n 1114112) refl refl refl p

cons_parts : {a b : ℕ} {x y : List ℕ} → a ∷ x ≡ b ∷ y → (a ≡ b) × (x ≡ y)
cons_parts e = ground (arith)

wide_apart :
    (c d : ℕ)
    → ltb c 65536 ≡ false
    → ltb d 65536 ≡ false
    → 55296 + (c - 65536) / 1024 ≡ 55296 + (d - 65536) / 1024
    → 56320 + (c - 65536) % 1024 ≡ 56320 + (d - 65536) % 1024
    → c ≡ d
wide_apart c d h k e f = ground arith

narrow_apart :
    (c d : ℕ)
    → IsPoint c
    → IsPoint d
    → ltb c 65536 ≡ true
    → ltb d 65536 ≡ false
    → ¬ (c ≡ 55296 + (d - 65536) / 1024)
unfolding IsPoint
narrow_apart c d (inl p) (inl q) small large e = ground arith
narrow_apart c d (inl p) (inr q) small large e = ground arith
narrow_apart c d (inr p) (inl q) small large e = ground arith
narrow_apart c d (inr p) (inr q) small large e = ground arith

units_apart :
    (c d : ℕ) (x y : List ℕ)
    → IsPoint c
    → IsPoint d
    → code_units (c ∷ x) ≡ code_units (d ∷ y)
    → (c ≡ d) × (code_units x ≡ code_units y)
unfolding IsPoint
units_apart c d x y p q h = elim (Bool-cases (ltb c 65536)) [
  | inl small ↦ elim (Bool-cases (ltb d 65536)) [
    | inl small_too ↦ cons_parts (rw (small, small_too) at h)
    | inr large ↦ absurd (narrow_apart c d p q small large (cons_parts (rw (small, large) at h)).0)
  ]
  | inr large ↦ elim (Bool-cases (ltb d 65536)) [
    | inl small ↦
        absurd (narrow_apart d c q p small large (sym (cons_parts (rw (large, small) at h)).0))
    | inr large_too ↦
        let hi = cons_parts (rw (large, large_too) at h) in
        let lo = cons_parts hi.1 in (wide_apart c d large large_too hi.0 lo.0, lo.1)
  ]
]

units_start : (c : Char) (text : List ℕ) → ¬ ([] ≡ code_units (code c ∷ text))
units_start c text h = ground arith

same_text : (c d : Char) (s t : String) → c ≡ d → s ≡ t → String.◌∷◌ c s ≡ String.◌∷◌ d t
same_text c d s t e f = rw (e, f) refl

codes_injective : (s t : String) → code_units (codes s) ≡ code_units (codes t) → s ≡ t
codes_injective String.[] String.[] h = refl
codes_injective String.[] (String.◌∷◌ c t) h = absurd (units_start c (codes t) h)
codes_injective (String.◌∷◌ c s) String.[] h = absurd (units_start c (codes s) (sym h))
codes_injective (String.◌∷◌ c s) (String.◌∷◌ d t) h =
    let parts =
      units_apart (code c) (code d) (codes s) (codes t) (IsPoint-code c) (IsPoint-code d) h in
    same_text c d s t (Char-path c d parts.0) (codes_injective s t parts.1)

-- `sort` orders all texts, and tells different ones apart.
pub text_le-IsPreorder : IsPreorder text_le
text_le-IsPreorder = record {
  total = λ a b. units_le_total (code_units (codes a)) (code_units (codes b));
  trans =
      λ a b c. units_le_trans (code_units (codes a)) (code_units (codes b)) (code_units (codes c));
}

pub text_le_antisym : (a b : String) → text_le a b ≡ true → text_le b a ≡ true → a ≡ b
text_le_antisym a b h k =
    codes_injective a b (units_le_antisym (code_units (codes a)) (code_units (codes b)) h k)

-- ===== src/Base/Tests.antt =====
-- Boolean tests, the conditional, equality as an interface, and case splits that keep an equation.
use Prim.Native.Nat.{ℕ, ◌≤◌, ◌<◌, compare, Ordering}
use Prim.Native.String.{String, ◌++◌ as text_append}
use mathlib.Core.Path.{◌≡◌, refl}
use mathlib.Core.Logic.{◌↔◌, ◌⊎◌, inl, inr}
use mathlib.Core.Bool.{Bool, true, false, ◌&&◌}
use mathlib.Core.Option.{Option, none, some}
use native.Mathlib.Omega.{arith}
use text.Mathlib.Text.{◌==◌ as str_eq}
use text.Mathlib.TextEquality.{eq_iff}

abbrev pub ltb : ℕ → ℕ → Bool
ltb a b = elim (compare a b) [ Ordering.lt ↦ true | _ ↦ false ]

abbrev pub leb : ℕ → ℕ → Bool
leb a b = elim (compare a b) [ Ordering.gt ↦ false | _ ↦ true ]

abbrev nat_beq : ℕ → ℕ → Bool
nat_beq a b = elim (compare a b) [ Ordering.eq ↦ true | _ ↦ false ]

infix 1 if◌then◌else◌
abbrev pub if◌then◌else◌ {ℓ} : {A : Type ℓ} → Bool → A → A → A
if true then x else y = x
if false then x else y = y

pub leb→le : (a b : ℕ) → leb a b ≡ true → a ≤ b
leb→le a b h = ground arith

pub ltb→lt : (a b : ℕ) → ltb a b ≡ true → a < b
ltb→lt a b h = ground arith

pub nat_beq_iff : (a b : ℕ) → (nat_beq a b ≡ true) ↔ (a ≡ b)
nat_beq_iff a b = ground arith

-- JavaScript's `===` on the types where the program uses it.
pub record Eq {ℓ} (A : Type ℓ) : Type ℓ where
  pub test : A → A → Bool
  pub test_iff : (a b : A) → (test a b ≡ true) ↔ (a ≡ b)

infix 50 ◌==◌
abbrev pub ◌==◌ {ℓ} : {A : Type ℓ} ⦃e : Eq A⦄ → A → A → Bool
◌==◌ ⦃e⦄ = e.test

pub ==_iff {ℓ} : {A : Type ℓ} ⦃e : Eq A⦄ (a b : A) → ((a == b) ≡ true) ↔ (a ≡ b)
==_iff ⦃e⦄ = e.test_iff

pub ==_self {ℓ} : {A : Type ℓ} ⦃e : Eq A⦄ (a : A) → (a == a) ≡ true
==_self ⦃e⦄ a = (e.test_iff a a).1 refl

instance abbrev pub nat_eq : Eq ℕ
nat_eq = record { test = nat_beq; test_iff = nat_beq_iff }

instance abbrev pub string_eq : Eq String
string_eq = record { test = str_eq; test_iff = eq_iff }

-- `x === y` where either side may be null or undefined: two absent values are equal.
abbrev pub same? {ℓ} : {A : Type ℓ} ⦃e : Eq A⦄ → Option A → Option A → Bool
same? none none = true
same? (some a) (some b) = a == b
same? _ _ = false

-- `x === y` for a value `y` that is there.
abbrev pub is? {ℓ} : {A : Type ℓ} ⦃e : Eq A⦄ → Option A → A → Bool
is? none b = false
is? (some a) b = a == b

-- `!!o` for an object that may be null or undefined.
abbrev pub is_some? {ℓ} : {A : Type ℓ} → Option A → Bool
is_some? none = false
is_some? (some a) = true

-- `x ?? d`.
abbrev pub or_else {ℓ} : {A : Type ℓ} → Option A → A → A
or_else none d = d
or_else (some a) d = a

-- `x ?? y` where both may be absent.
abbrev pub or_option {ℓ} : {A : Type ℓ} → Option A → Option A → Option A
or_option none d = d
or_option (some a) d = some a

-- To split on a computed value and keep the equation.
pub Bool-cases : (b : Bool) → (b ≡ true) ⊎ (b ≡ false)
Bool-cases true = inl refl
Bool-cases false = inr refl

pub Option-cases {ℓ} : {A : Type ℓ} (o : Option A) → (o ≡ none) ⊎ ((a : A) × (o ≡ some a))
Option-cases none = inl refl
Option-cases (some a) = inr (a, refl)

-- `${a}${b}`
abbrev pub concat : String → String → String
concat a b = text_append a b

pub both-first : (a b : Bool) → (a && b) ≡ true → a ≡ true
both-first true b h = refl
both-first false b h = ground arith

pub and-true : (a b : Bool) → a ≡ true → b ≡ true → (a && b) ≡ true
and-true a b h k = ground arith

pub both-second : (a b : Bool) → (a && b) ≡ true → b ≡ true
both-second a b h = ground arith

-- Chains of steps that may stop, for `do` blocks.
infixl 5 ◌>>=◌
abbrev pub ◌>>=◌ {ℓ} : {A B : Type ℓ} → Option A → (A → Option B) → Option B
none >>= next = none
some a >>= next = next a

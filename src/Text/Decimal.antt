-- ===== src/Text/Decimal.antt =====
-- Decimal notation: what `${n}` writes of a whole number is read back by `Number`.
use homelab_builder.Base.{
  length-append, length, ◌≤◌, ℕ, zero, suc, ◌+◌, ◌-◌, ◌*◌, ◌/◌, ◌%◌, ◌<◌, ◌≡◌, refl, inl, inr, Bool,
  true, false, not, ◌&&◌, List, [], ◌∷◌, ◌++◌, arith, ltb, if◌then◌else◌, ◌==◌, nat_eq, string_eq,
  Bool-cases, int_eq,
}
use homelab_builder.Text.{all_digits, number_from}

-- The digits of a number, with fuel for one round a digit.
digits_of : ℕ → ℕ → List ℕ
digits_of zero n = []
digits_of (suc fuel) n =
    let front = digits_of fuel (n / 10) in
    if ltb n 10 then (b'0' + n) ∷ [] else front ++ (b'0' + n % 10) ∷ []

-- `${n}`
unfoldable pub decimal : ℕ → List ℕ
unfolding digits_of
decimal n = digits_of (suc n) n

number_from-append :
    (acc : ℕ) (xs ys : List ℕ) → number_from acc (xs ++ ys) ≡ number_from (number_from acc xs) ys
unfolding number_from
number_from-append acc [] ys = refl
number_from-append acc (x ∷ xs) ys = number_from-append (acc * 10 + (x - b'0')) xs ys

number_from-digits_of : (fuel n : ℕ) → n < fuel → number_from 0 (digits_of fuel n) ≡ n
unfolding digits_of number_from
number_from-digits_of zero n h = elim h [ ]
number_from-digits_of (suc fuel) n h = elim (Bool-cases (ltb n 10)) [
  | inl small ↦ rw small (omega arith)
  | inr large ↦
      rw (large, number_from-append 0 (digits_of fuel (n / 10)) ((b'0' + n % 10) ∷ []))
        (ground (arith, number_from-digits_of fuel (n / 10)))
]

pub number_from-decimal : (n : ℕ) → number_from 0 (decimal n) ≡ n
unfolding decimal
number_from-decimal n = number_from-digits_of (suc n) n (omega arith)

all_digits-append : (xs ys : List ℕ) → all_digits (xs ++ ys) ≡ (all_digits xs && all_digits ys)
all_digits-append [] ys = refl
all_digits-append (x ∷ xs) ys = ground (arith, all_digits-append xs ys)

all_digits-digits_of : (fuel n : ℕ) → all_digits (digits_of fuel n) ≡ true
unfolding digits_of
all_digits-digits_of zero n = refl
all_digits-digits_of (suc fuel) n = elim (Bool-cases (ltb n 10)) [
  | inl small ↦ rw small (ground arith)
  | inr large ↦
      rw (large, all_digits-append (digits_of fuel (n / 10)) ((b'0' + n % 10) ∷ []))
        (ground (arith, all_digits-digits_of fuel (n / 10)))
]

pub all_digits-decimal : (n : ℕ) → all_digits (decimal n) ≡ true
unfolding decimal
all_digits-decimal n = all_digits-digits_of (suc n) n

-- A digit text of two or more digits does not begin with a zero.
abbrev pub no_leading_zero : List ℕ → Bool
no_leading_zero [] = false
no_leading_zero (c ∷ []) = true
no_leading_zero (c ∷ d ∷ text) = not (c == b'0')

no_leading_zero-append :
    (xs ys : List ℕ)
    → no_leading_zero xs ≡ true
    → 0 < number_from 0 xs
    → no_leading_zero (xs ++ ys) ≡ true
unfolding number_from
no_leading_zero-append [] ys h k = cc
no_leading_zero-append (c ∷ []) [] h k = refl
no_leading_zero-append (c ∷ []) (y ∷ ys) h k = ground arith
no_leading_zero-append (c ∷ d ∷ xs) ys h k = h

no_leading_zero-digits_of : (fuel n : ℕ) → n < fuel → no_leading_zero (digits_of fuel n) ≡ true
unfolding digits_of
no_leading_zero-digits_of zero n h = elim h [ ]
no_leading_zero-digits_of (suc fuel) n h = elim (Bool-cases (ltb n 10)) [
  | inl small ↦ rw small
  | inr large ↦ rw large (
      no_leading_zero-append (digits_of fuel (n / 10)) ((b'0' + n % 10) ∷ [])
        (no_leading_zero-digits_of fuel (n / 10) (ground arith))
        (rw (number_from-digits_of fuel (n / 10) (ground arith)) (ground arith)))
]

pub no_leading_zero-decimal : (n : ℕ) → no_leading_zero (decimal n) ≡ true
unfolding decimal
no_leading_zero-decimal n = no_leading_zero-digits_of (suc n) n (omega arith)

abbrev pub ten_power : ℕ → ℕ
ten_power zero = 1
ten_power (suc k) = 10 * ten_power k

length-digits_of :
    (fuel n k : ℕ)
    → n < fuel
    → n < 10 * ten_power k
    → (1 ≤ length (digits_of fuel n)) × (length (digits_of fuel n) ≤ k + 1)
unfolding digits_of
length-digits_of zero n k h b = elim h [ ]
length-digits_of (suc fuel) n zero h b =
    let small : ltb n 10 ≡ true = ground arith in rw small (omega arith, omega arith)
length-digits_of (suc fuel) n (suc k) h b = elim (Bool-cases (ltb n 10)) [
  | inl small ↦ rw small (omega arith, omega arith)
  | inr large ↦
      let front = digits_of fuel (n / 10) in
      let shorter = length-digits_of fuel (n / 10) k (ground arith) (omega arith) in
      rw large (
        omega (arith, length-append front ((b'0' + n % 10) ∷ [])),
        omega (arith, shorter.1, length-append front ((b'0' + n % 10) ∷ [])),
      )
]

-- A number below 10 ^ (k + 1) has at most k + 1 digits.
pub length-decimal :
    (n k : ℕ) → n < 10 * ten_power k → (1 ≤ length (decimal n)) × (length (decimal n) ≤ k + 1)
unfolding decimal
length-decimal n k b = length-digits_of (suc n) n k (omega arith) b

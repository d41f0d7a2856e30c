-- ===== src/Ports/Address/Written.antt =====
-- port-config.ts: an address that is written with its prefix is read back.
use homelab_builder.Ports.Address.{
  prefix_of_parts, part_before, parse_ipv4_prefix, last_part, span_digits, slash, leading_zero, dot,
}
use homelab_builder.Text.{is_digit, all_digits}
use homelab_builder.Text.Decimal.{
  no_leading_zero-decimal, number_from-decimal, length-decimal, all_digits-decimal, no_leading_zero,
  decimal,
}
use homelab_builder.Base.{
  ◌+◌, ◌*◌, some, both-second, both-first, refl, arith, false, [], ◌∷◌, true, length, ◌≤◌, ◌≡◌,
  ◌++◌, ℕ, List, string_eq, nat_eq, int_eq,
}

-- "a.b.c.d/p"
unfoldable pub written_prefix : ℕ → ℕ → ℕ → ℕ → ℕ → List ℕ
written_prefix a b c d p =
    decimal a ++ dot ∷ (decimal b ++ dot ∷ (decimal c ++ dot ∷ (decimal d ++ slash ∷ decimal p)))

span_digits-append :
    (digits rest : List ℕ) (c : ℕ)
    → all_digits digits ≡ true
    → is_digit c ≡ false
    → span_digits (digits ++ c ∷ rest) ≡ (digits, c ∷ rest)
span_digits-append [] rest c all_of other = ground arith
span_digits-append (d ∷ digits) rest c all_of other =
    rw
      (
        both-first (is_digit d) (all_digits digits) all_of,
        span_digits-append digits rest c (both-second (is_digit d) (all_digits digits) all_of)
            other,
      )
      refl

span_digits-all : (digits : List ℕ) → all_digits digits ≡ true → span_digits digits ≡ (digits, [])
span_digits-all [] h = refl
span_digits-all (d ∷ digits) h =
    rw
      (
        both-first (is_digit d) (all_digits digits) h,
        span_digits-all digits (both-second (is_digit d) (all_digits digits) h),
      )
      refl

leading_zero-none : (digits : List ℕ) → no_leading_zero digits ≡ true → leading_zero digits ≡ false
leading_zero-none [] h = refl
leading_zero-none (c ∷ []) h = refl
leading_zero-none (c ∷ d ∷ digits) h = ground arith

part_before-decimal :
    (n most sep : ℕ) (rest : List ℕ)
    → length (decimal n) ≤ most
    → 1 ≤ length (decimal n)
    → is_digit sep ≡ false
    → part_before most sep (decimal n ++ sep ∷ rest) ≡ some (decimal n, rest)
unfolding part_before
part_before-decimal n most sep rest short some_digit other =
    rw (span_digits-append (decimal n) rest sep (all_digits-decimal n) other) (ground arith)

last_part-decimal :
    (n : ℕ)
    → length (decimal n) ≤ 2
    → 1 ≤ length (decimal n)
    → last_part (decimal n) ≡ some (decimal n)
unfolding last_part
last_part-decimal n short some_digit =
    rw (span_digits-all (decimal n) (all_digits-decimal n)) (ground arith)

prefix_of_parts-decimal :
    (a b c d p : ℕ)
    → a ≤ 255
    → b ≤ 255
    → c ≤ 255
    → d ≤ 255
    → 8 ≤ p
    → p ≤ 30
    → prefix_of_parts (decimal a) (decimal b) (decimal c) (decimal d) (decimal p)
      ≡ some (record { ip = ((a * 256 + b) * 256 + c) * 256 + d; prefix = p })
unfolding prefix_of_parts
prefix_of_parts-decimal a b c d p ha hb hc hd low high =
    rw
      (
        number_from-decimal a,
        number_from-decimal b,
        number_from-decimal c,
        number_from-decimal d,
        number_from-decimal p,
        leading_zero-none (decimal a) (no_leading_zero-decimal a),
        leading_zero-none (decimal b) (no_leading_zero-decimal b),
        leading_zero-none (decimal c) (no_leading_zero-decimal c),
        leading_zero-none (decimal d) (no_leading_zero-decimal d),
        leading_zero-none (decimal p) (no_leading_zero-decimal p),
      )
      (ground arith)

-- An address of four octets up to 255 with a prefix from 8 to 30, written in decimal, is read back.
pub parse_ipv4_prefix-written :
    (a b c d p : ℕ)
    → a ≤ 255
    → b ≤ 255
    → c ≤ 255
    → d ≤ 255
    → 8 ≤ p
    → p ≤ 30
    → parse_ipv4_prefix (written_prefix a b c d p)
      ≡ some (record { ip = ((a * 256 + b) * 256 + c) * 256 + d; prefix = p })
unfolding parse_ipv4_prefix written_prefix
parse_ipv4_prefix-written a b c d p ha hb hc hd low high =
    let la = length-decimal a 2 (omega (arith, ha)) in
    let lb = length-decimal b 2 (omega (arith, hb)) in
    let lc = length-decimal c 2 (omega (arith, hc)) in
    let ld = length-decimal d 2 (omega (arith, hd)) in
    let lp = length-decimal p 1 (omega (arith, high)) in
    let after_d = decimal p in
    let after_c = decimal d ++ slash ∷ after_d in
    let after_b = decimal c ++ dot ∷ after_c in
    let after_a = decimal b ++ dot ∷ after_b in
    rw
      (
        part_before-decimal a 3 dot after_a la.1 la.0 refl,
        part_before-decimal b 3 dot after_b lb.1 lb.0 refl,
        part_before-decimal c 3 dot after_c lc.1 lc.0 refl,
        part_before-decimal d 3 slash after_d ld.1 ld.0 refl,
        last_part-decimal p lp.1 lp.0,
      )
      (prefix_of_parts-decimal a b c d p ha hb hc hd low high)

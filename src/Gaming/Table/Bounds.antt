-- ===== src/Gaming/Table/Bounds.antt =====
-- table.ts: a table that was resized has a sensible size and a switch that is large enough.
use homelab_builder.Types.Lookup.{get-put}
use homelab_builder.Gaming.{default_seat_watts, table_switch_ports_for, default_table_seats}
use homelab_builder.Gaming.Sizing.{table_switch_ports_for_fits}
use homelab_builder.Types.{str, put, get, Dict, num, Json}
use homelab_builder.Gaming.Table.{
  number_of, min_seat_watts, max_seat_watts, falsy, number_at, written_table, table_switch_ports,
  table_seat_watts, resize_table, int_max, changed_details, table_seats, max_table_seats,
  TableChange, resized_details, positive_or, resized_ports,
}
use homelab_builder.Base.{
  ap, true, ==_self, ◌∙◌, if◌then◌else◌, ◌==◌, ◌<◌, Bool, false, String, none, inr, max, inl,
  int_lt, zero, min, Bool-cases, suc, refl, negsuc, ◌/◌, arith, some, pos_part, pos, ◌≡◌, ◌+◌, ◌*◌,
  ◌≤◌, ℤ, whole, Option, ℕ, rounded, string_eq, nat_eq, int_eq,
}

positive_or-pos : (n fallback : ℕ) → 1 ≤ n → positive_or (some (pos n)) fallback ≡ n
positive_or-pos zero fallback h = absurd (omega arith)
positive_or-pos (suc n) fallback h = refl

rounded-whole : (n : ℕ) → rounded (whole n) ≡ pos n
unfolding rounded
rounded-whole n = let e : (n * 1000 + 500) / 1000 ≡ n = omega arith in rw e refl

-- A number of ports that reaches a count reads as no fewer.
positive_or-rounded :
    (v : ℤ) (n fallback : ℕ)
    → 1 ≤ n
    → n * 1000 ≤ pos_part v
    → n ≤ positive_or (some (rounded v)) fallback
unfolding rounded
positive_or-rounded (pos m) n fallback h k =
    let e : n ≤ (m + 500) / 1000 = omega (arith, k) in
    rw (positive_or-pos ((m + 500) / 1000) fallback (omega (arith, e, h))) e
positive_or-rounded (negsuc m) n fallback h k = absurd (omega (arith, h, k))

int_max-le : (f : ℕ) (ports : ℤ) (n : ℕ) → n ≤ f → n * 1000 ≤ pos_part (int_max (whole f) ports)
int_max-le f (pos m) n h = ground arith
int_max-le f (negsuc m) n h = ground arith

not_less : (ports : ℤ) (n : ℕ) → int_lt ports (whole n) ≡ false → n * 1000 ≤ pos_part ports
not_less (pos m) n h = ground arith
not_less (negsuc m) n h = ground arith

resized_ports-le :
    (seats : ℕ) (ports : Option ℤ) → (seats + 1) * 1000 ≤ pos_part (resized_ports seats ports)
unfolding resized_ports
resized_ports-le seats none = omega (arith, table_switch_ports_for_fits seats)
resized_ports-le seats (some ports) = elim (Bool-cases (int_lt ports (whole (seats + 1)))) [
  | inl e ↦ rw (e) (
      int_max-le (table_switch_ports_for seats) ports (seats + 1)
        (omega (arith, table_switch_ports_for_fits seats)))
  | inr e ↦ rw (e) (not_less ports (seats + 1) e)
]

-- A key that is not the one written keeps its value.
get-put_other :
    (o : Dict Json) (k j : String) (v : Json) → k == j ≡ false → get (put o k v) j ≡ get o j
get-put_other o k j v other = get-put o k j v ∙ rw (other) refl

get-put_same : (o : Dict Json) (k : String) (v : Json) → get (put o k v) k ≡ some v
get-put_same o k v = get-put o k k v ∙ rw (==_self {A = String} k) refl

get_speed-other :
    (o : Dict Json) (j : String) (b : Bool)
    → "switch_speed" == j ≡ false
    → get (if b then put o "switch_speed" (str "1 GbE") else o) j ≡ get o j
get_speed-other o j true other = get-put_other o "switch_speed" j (str "1 GbE") other
get_speed-other o j false other = refl

-- What the details hold after the writes.
written_table-get :
    (next : Dict Json) (seats watts : ℕ) (ports : ℤ)
    → let t = written_table next seats watts ports in
      (get t "seats" ≡ some (num (whole seats)))
      × (get t "seat_watts" ≡ some (num (pos watts)))
      × (get t "switch_ports" ≡ some (num ports))
unfolding written_table
written_table-get next seats watts ports =
    let seated = put next "seats" (num (whole seats)) in
    let powered = put seated "seat_watts" (num (pos watts)) in
    let switched = put powered "switch_ports" (num ports) in
    let speedless = falsy (get switched "switch_speed") in
    (
      get_speed-other switched "seats" speedless refl
          ∙ get-put_other powered "switch_ports" "seats" (num ports) refl
          ∙ get-put_other seated "seat_watts" "seats" (num (pos watts)) refl
          ∙ get-put_same next "seats" (num (whole seats)),
      get_speed-other switched "seat_watts" speedless refl
          ∙ get-put_other powered "switch_ports" "seat_watts" (num ports) refl
          ∙ get-put_same seated "seat_watts" (num (pos watts)),
      get_speed-other switched "switch_ports" speedless refl
          ∙ get-put_same powered "switch_ports" (num ports),
    )

module _ (number : Json → Option ℤ) (number_num : (v : ℤ) → number (num v) ≡ some v) where
  number_at-num :
      (details : Dict Json) (key : String) (v : ℤ)
      → get details key ≡ some (num v)
      → number_at number details key ≡ some v
  number_at-num details key v e = ap (number_of number) e ∙ number_num v

  table_seats-read :
      (details : Dict Json) (s : ℕ)
      → get details "seats" ≡ some (num (whole s))
      → 1 ≤ s
      → table_seats number details ≡ s
  unfolding table_seats
  table_seats-read details s e h =
      rw (number_at-num details "seats" (whole s) e, rounded-whole s)
        (positive_or-pos s default_table_seats h)

  table_seat_watts-read :
      (details : Dict Json) (w : ℕ)
      → get details "seat_watts" ≡ some (num (pos w))
      → 1 ≤ w
      → table_seat_watts number details ≡ w
  unfolding table_seat_watts
  table_seat_watts-read details w e h =
      rw (number_at-num details "seat_watts" (pos w) e)
        (positive_or-pos w (default_seat_watts * 1000) h)

  table_switch_ports-read :
      (details : Dict Json) (v : ℤ) (n : ℕ)
      → get details "switch_ports" ≡ some (num v)
      → 1 ≤ n
      → n * 1000 ≤ pos_part v
      → n ≤ table_switch_ports number details
  unfolding table_switch_ports
  table_switch_ports-read details v n e h k =
      rw (number_at-num details "switch_ports" v e)
        (positive_or-rounded v n (table_switch_ports_for (table_seats number details)) h k)

  -- If `Number` leaves a number as it is, a table that was resized has from 1 to 24 seats of 50 to 2000
  -- watts and a switch with a port for every seat and one more, whatever it held before and whatever
  -- was asked for.
  pub resize_table-fits :
      (details : Dict Json) (change : TableChange)
      → let next = (resize_table number details change).0 in
        (1 ≤ table_seats number next)
        × (table_seats number next ≤ 24)
        × (50000 ≤ table_seat_watts number next)
        × (table_seat_watts number next ≤ 2000000)
        × (table_seats number next < table_switch_ports number next)
  unfolding resize_table resized_details
  resize_table-fits details change =
      let given = changed_details details change in
      let s = min max_table_seats (max 1 (table_seats number given)) in
      let w = min (max_seat_watts * 1000) (
        max (min_seat_watts * 1000)
          (table_seat_watts number (put given "seats" (num (whole s))))) in
      let p = resized_ports s change.switch_ports in
      let t = written_table given s w p in
      let held = written_table-get given s w p in
      let seats = table_seats-read t s held.0 (omega arith) in
      let watts = table_seat_watts-read t w held.1 (omega arith) in
      let ports =
        table_switch_ports-read t p (s + 1) held.2 (omega arith)
          (resized_ports-le s change.switch_ports) in
      rw (seats, watts) (omega arith, omega arith, omega arith, omega arith, omega (arith, ports))

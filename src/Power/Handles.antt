-- ===== src/Power/Handles.antt =====
-- Reading a power handle gives the number that the canvas wrote into it.
use homelab_builder.Types.{Json, Dict}
use homelab_builder.Hardware.{is_power_source, HardwareType}
use homelab_builder.Text.Decimal.{
  number_from-decimal, no_leading_zero-decimal, all_digits-decimal, no_leading_zero, decimal,
}
use homelab_builder.Text.{codes, all_digits, strip}
use homelab_builder.Power.{
  whole_number, power_out_prefix, starts_with, power_output_count, power_input_count, finite,
  power_in_prefix, is_socket, is_power_input, is_index, to_double, power_handle_index,
  is_power_handle,
}
use homelab_builder.Base.{
  ◌↔◌, inr, refl, inl, [], ◌⊎◌, pos, arith, ==_self, ◌∷◌, ◌||◌, true, none, false, ◌≡◌, ℤ, some,
  leb, ◌≤◌, ◌++◌, Option, ℕ, String, List, string_eq, nat_eq, int_eq,
}

strip-append : (prefix rest : List ℕ) → strip prefix (prefix ++ rest) ≡ some rest
unfolding strip
strip-append [] rest = refl
strip-append (c ∷ prefix) rest = rw (==_self c) (strip-append prefix rest)

whole_number_of_digits :
    (text : List ℕ)
    → all_digits text ≡ true
    → no_leading_zero text ≡ true
    → whole_number text ≡ true
whole_number_of_digits [] h k = cc
whole_number_of_digits (c ∷ []) h k = h
whole_number_of_digits (c ∷ d ∷ text) h k = ground arith

leb-true : (m n : ℕ) → m ≤ n → leb m n ≡ true
leb-true m n h = ground arith

to_double-exact : (n : ℕ) → n ≤ 9007199254740992 → to_double n ≡ finite (pos n)
unfolding to_double
to_double-exact n h = rw (leb-true n 9007199254740992 h) refl

-- The handle of socket or input n, `${prefix}${n}`, reads back as n, for every n up to 2^53.
pub power_handle_index-decimal :
    (prefix handle : String) (n : ℕ)
    → n ≤ 9007199254740992
    → codes handle ≡ codes prefix ++ decimal n
    → power_handle_index (some handle) prefix ≡ finite (pos n)
unfolding power_handle_index
power_handle_index-decimal prefix handle n small h = rw (
  h,
  strip-append (codes prefix) (decimal n),
  whole_number_of_digits (decimal n) (all_digits-decimal n) (no_leading_zero-decimal n),
  number_from-decimal n,
  to_double-exact n small,
)

-- A socket's handle is no power input's: the two prefixes differ in their fifth letter.
strip_disjoint :
    (text : List ℕ)
    → (strip (codes power_in_prefix) text ≡ none) ⊎ (strip (codes power_out_prefix) text ≡ none)
unfolding strip
strip_disjoint [] = inl refl
strip_disjoint (a ∷ []) = ground arith
strip_disjoint (a ∷ b ∷ []) = ground arith
strip_disjoint (a ∷ b ∷ c ∷ []) = ground arith
strip_disjoint (a ∷ b ∷ c ∷ d ∷ []) = ground arith
strip_disjoint (a ∷ b ∷ c ∷ d ∷ f ∷ text) = ground arith

pub index_disjoint :
    (handle : Option String) → (is_power_input handle ≡ false) ⊎ (is_socket handle ≡ false)
unfolding power_handle_index
index_disjoint none = inl refl
index_disjoint (some handle) = elim (strip_disjoint (codes handle)) [
  | inl no_input ↦ inl (rw no_input)
  | inr no_socket ↦ inr (rw no_socket)
]

index-IsPower :
    (handle : String) (prefix : String)
    → is_index (power_handle_index (some handle) prefix) ≡ true
    → starts_with prefix handle ≡ true
unfolding power_handle_index
index-IsPower handle prefix h = ground arith

-- A handle with a socket's or an input's number is a power handle.
pub is_power_handle_of_index :
    (handle : Option String)
    → (is_socket handle || is_power_input handle) ≡ true
    → is_power_handle handle ≡ true
unfolding is_power_handle power_handle_index
is_power_handle_of_index none h = cc
is_power_handle_of_index (some handle) h =
    ground (arith, index-IsPower handle power_in_prefix, index-IsPower handle power_out_prefix)

module _ (trim : String → String) (to_number : String → Option ℤ) where
  -- A device has at most four power inputs. It has sockets, 1 to 48 of them, exactly when it is a
  -- power source, whatever its details say.
  pub power_counts_bounds :
      (type : HardwareType) (details : Option (Dict Json))
      → (power_input_count trim to_number (some type) details ≤ 4)
        × (power_output_count trim to_number (some type) details ≤ 48)
        × ((1 ≤ power_output_count trim to_number (some type) details)
            ↔ (is_power_source (some type) ≡ true))
  unfolding power_input_count power_output_count
  power_counts_bounds type details = ground arith

-- ===== src/Sse/Lines.antt =====
-- sse.ts: how a buffer is split into lines, one equation for each kind of line end.
use homelab_builder.Sse.{cr, with_line, lf, Split, take_lines}
use homelab_builder.Base.{
  ap, ◌∙◌, ◌||◌, ◌&&◌, sym, ◌++◌, refl, not, false, arith, ◌≡◌, ◌∷◌, ◌==◌, true, ℕ, [], List, Bool,
  string_eq, nat_eq, int_eq,
}
use mathlib.Core.List.{append_assoc, append-nil}

unfoldable pub breaks_line : ℕ → Bool
breaks_line c = c == lf || c == cr

unfoldable pub is_one_line : List ℕ → Bool
is_one_line [] = true
is_one_line (c ∷ text) = not (breaks_line c) && is_one_line text

unfoldable pub add_lines : List (List ℕ) → Split → Split
add_lines [] s = s
add_lines (line ∷ lines) s = with_line line (add_lines lines s)

pub take_lines-plain :
    (final : Bool) (line : List ℕ) (c : ℕ) (text : List ℕ)
    → breaks_line c ≡ false
    → take_lines final line (c ∷ text) ≡ take_lines final (line ++ c ∷ []) text
unfolding take_lines breaks_line
take_lines-plain final line c [] plain = ground arith
take_lines-plain final line c (d ∷ text) plain = ground arith

pub take_lines-lf :
    (final : Bool) (line : List ℕ) (c : ℕ) (text : List ℕ)
    → c == lf ≡ true
    → take_lines final line (c ∷ text) ≡ with_line line (take_lines final [] text)
unfolding take_lines
take_lines-lf final line c [] ends = ground arith
take_lines-lf final line c (d ∷ text) ends = ground arith

pub take_lines-nil :
    (final : Bool) (line : List ℕ) → take_lines final line [] ≡ record { lines = []; rest = line }
unfolding take_lines
take_lines-nil final line = refl

pub take_lines-crlf :
    (final : Bool) (line : List ℕ) (c d : ℕ) (text : List ℕ)
    → c == lf ≡ false
    → c == cr ≡ true
    → d == lf ≡ true
    → take_lines final line (c ∷ d ∷ text) ≡ with_line line (take_lines final [] text)
unfolding take_lines
take_lines-crlf final line c d text other ends pair = ground arith

pub take_lines-cr :
    (final : Bool) (line : List ℕ) (c d : ℕ) (text : List ℕ)
    → c == lf ≡ false
    → c == cr ≡ true
    → d == lf ≡ false
    → take_lines final line (c ∷ d ∷ text) ≡ with_line line (take_lines final [] (d ∷ text))
unfolding take_lines
take_lines-cr final line c d text other ends alone = ground arith

-- A CR that ends a chunk waits for the next one.
pub take_lines-held :
    (line : List ℕ) (c : ℕ)
    → c == lf ≡ false
    → take_lines false line (c ∷ []) ≡ record { lines = []; rest = line ++ c ∷ [] }
unfolding take_lines
take_lines-held line c other = ground arith

pub not_break : (c : ℕ) → c == lf ≡ false → c == cr ≡ false → breaks_line c ≡ false
unfolding breaks_line
not_break c other plain = ground arith

pub one_line-append :
    (line : List ℕ) (c : ℕ)
    → is_one_line line ≡ true
    → breaks_line c ≡ false
    → is_one_line (line ++ c ∷ []) ≡ true
unfolding is_one_line
one_line-append [] c one plain = ground arith
one_line-append (d ∷ line) c one plain = ground (arith, one_line-append line c)

pub plain_of : (c : ℕ) (line : List ℕ) → is_one_line (c ∷ line) ≡ true → breaks_line c ≡ false
unfolding is_one_line
plain_of c line one = ground arith

pub rest_of : (c : ℕ) (line : List ℕ) → is_one_line (c ∷ line) ≡ true → is_one_line line ≡ true
unfolding is_one_line
rest_of c line one = ground arith

pub take_lines-line :
    (final : Bool) (line more text : List ℕ)
    → is_one_line more ≡ true
    → take_lines final line (more ++ text) ≡ take_lines final (line ++ more) text
take_lines-line final line [] text one = rw (append-nil line) refl
take_lines-line final line (c ∷ more) text one =
    take_lines-plain final line c (more ++ text) (plain_of c more one)
    ∙ take_lines-line final (line ++ c ∷ []) more text (rest_of c more one)
    ∙ ap (λ l. take_lines final l text) (append_assoc line (c ∷ []) more)

pub held_over :
    (final : Bool) (line later : List ℕ) (c : ℕ)
    → is_one_line line ≡ true
    → take_lines final line (c ∷ later) ≡ take_lines final [] ((line ++ c ∷ []) ++ later)
held_over final line later c one =
    sym (take_lines-line final [] line (c ∷ later) one)
    ∙ ap (take_lines final []) (sym (append_assoc line (c ∷ []) later))

pub one_nil : is_one_line [] ≡ true
unfolding is_one_line
one_nil = refl

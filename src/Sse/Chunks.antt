-- ===== src/Sse/Chunks.antt =====
-- sse.ts: how the stream was cut into chunks does not show in the events.
use homelab_builder.Sse.Lines.{
  one_line-append, not_break, take_lines-plain, take_lines-cr, take_lines-crlf, held_over,
  take_lines-held, take_lines-lf, take_lines-line, one_nil, take_lines-nil, is_one_line, add_lines,
}
use homelab_builder.Sse.{
  cr, with_line, lf, trim_space, field_of, take_lines, Split, set_field, read_sse, feed,
  dispatch_line, dispatch, Reader,
}
use homelab_builder.Base.{
  inr, inl, ◌==◌, Bool-cases, sym, refl, true, arith, ap, [], ◌≡◌, ◌∷◌, ◌++◌, false, ℕ, Bool, List,
  string_eq, nat_eq, int_eq,
}
use mathlib.Core.List.{append_assoc}

-- What a chunk leaves is read again with the next one.
pub take_lines-append :
    (final : Bool) (line chunk later : List ℕ)
    → is_one_line line ≡ true
    → let split = take_lines false line chunk in
      take_lines final line (chunk ++ later)
      ≡ add_lines split.lines (take_lines final [] (split.rest ++ later))
unfolding add_lines
take_lines-append final line [] later one =
    rw (take_lines-nil false line) (sym (take_lines-line final [] line later one))
take_lines-append final line (c ∷ []) later one = elim (Bool-cases (c == lf)) [
  | inl e ↦
      rw (take_lines-lf final line c later e, take_lines-lf false line c [] e)
        (rw (take_lines-nil false []) refl)
  | inr e ↦ rw (take_lines-held line c e) (held_over final line later c one)
]
take_lines-append final line (c ∷ d ∷ chunk) later one = elim (Bool-cases (c == lf)) [
  | inl e ↦
      rw
        (
          take_lines-lf final line c (d ∷ (chunk ++ later)) e,
          take_lines-lf false line c (d ∷ chunk) e,
        )
        (ap (with_line line) (take_lines-append final [] (d ∷ chunk) later one_nil))
  | inr e ↦ elim (Bool-cases (c == cr)) [
    | inl f ↦ elim (Bool-cases (d == lf)) [
      | inl g ↦
          rw
            (
              take_lines-crlf final line c d (chunk ++ later) e f g,
              take_lines-crlf false line c d chunk e f g,
            )
            (ap (with_line line) (take_lines-append final [] chunk later one_nil))
      | inr g ↦
          rw
            (
              take_lines-cr final line c d (chunk ++ later) e f g,
              take_lines-cr false line c d chunk e f g,
            )
            (ap (with_line line) (take_lines-append final [] (d ∷ chunk) later one_nil))
    ]
    | inr f ↦
        rw
          (
            take_lines-plain final line c (d ∷ (chunk ++ later)) (not_break c e f),
            take_lines-plain false line c (d ∷ chunk) (not_break c e f),
          )
          (take_lines-append final (line ++ c ∷ []) (d ∷ chunk) later
            (one_line-append line c one (not_break c e f)))
  ]
]

-- The buffer takes no part in what a line does.
unfoldable pub with_buffer : List ℕ → Reader → Reader
with_buffer kept r = record r { buffer = kept }

set_field-buffer :
    (r : Reader) (kept field value : List ℕ)
    → set_field (with_buffer kept r) field value ≡ with_buffer kept (set_field r field value)
unfolding with_buffer set_field
set_field-buffer r kept field value = ground arith

dispatch_line-buffer :
    (r : Reader) (kept line : List ℕ)
    → dispatch_line (with_buffer kept r) line
      ≡ (with_buffer kept (dispatch_line r line).0, (dispatch_line r line).1)
unfolding dispatch_line with_buffer
dispatch_line-buffer r kept [] = refl
dispatch_line-buffer r kept (c ∷ line) =
    ground
      (arith, set_field-buffer r kept (field_of (c ∷ line)).0 (trim_space (field_of (c ∷ line)).1))

dispatch-buffer :
    (r : Reader) (kept : List ℕ) (lines : List (List ℕ))
    → dispatch (with_buffer kept r) lines
      ≡ (with_buffer kept (dispatch r lines).0, (dispatch r lines).1)
unfolding dispatch
dispatch-buffer r kept [] = refl
dispatch-buffer r kept (line ∷ lines) =
    rw (dispatch_line-buffer r kept line, dispatch-buffer (dispatch_line r line).0 kept lines) refl

pub dispatch-append :
    (r : Reader) (lines later : List (List ℕ))
    → dispatch r (lines ++ later) ≡ (
      (dispatch (dispatch r lines).0 later).0,
      (dispatch r lines).1 ++ (dispatch (dispatch r lines).0 later).1,
    )
unfolding dispatch
dispatch-append r [] later = refl
dispatch-append r (line ∷ lines) later =
    rw
      (
        dispatch-append (dispatch_line r line).0 lines later,
        append_assoc (dispatch_line r line).1 (dispatch (dispatch_line r line).0 lines).1
            (dispatch (dispatch (dispatch_line r line).0 lines).0 later).1,
      )
      refl

add_lines-lines : (lines : List (List ℕ)) (s : Split) → (add_lines lines s).lines ≡ lines ++ s.lines
unfolding add_lines
add_lines-lines [] s = refl
add_lines-lines (line ∷ lines) s = ap (λ l. line ∷ l) (add_lines-lines lines s)

pub feed-eq :
    (final : Bool) (r : Reader) (chunk : List ℕ)
    → let split = take_lines final [] (r.buffer ++ chunk) in
      feed final r chunk
      ≡ (with_buffer split.rest (dispatch r split.lines).0, (dispatch r split.lines).1)
unfolding feed with_buffer
feed-eq final r chunk =
    let split = take_lines final [] (r.buffer ++ chunk) in dispatch-buffer r split.rest split.lines

feed-append :
    (r : Reader) (chunk later : List ℕ)
    → (feed false r chunk).1 ++ (feed true (feed false r chunk).0 later).1
      ≡ (feed true r (chunk ++ later)).1
unfolding with_buffer
feed-append r chunk later =
    let split = take_lines false [] (r.buffer ++ chunk) in
    let after = (dispatch r split.lines).0 in
    rw
      (
        feed-eq false r chunk,
        feed-eq true (with_buffer split.rest after) later,
        feed-eq true r (chunk ++ later),
        dispatch-buffer after split.rest (take_lines true [] (split.rest ++ later)).lines,
        sym (append_assoc r.buffer chunk later),
        take_lines-append true [] (r.buffer ++ chunk) later one_nil,
        add_lines-lines split.lines (take_lines true [] (split.rest ++ later)),
        dispatch-append r split.lines (take_lines true [] (split.rest ++ later)).lines,
      )
      refl

-- The whole stream.
unfoldable pub joined : List (List ℕ) → List ℕ → List ℕ
joined [] last = last
joined (chunk ∷ chunks) last = chunk ++ joined chunks last

-- The events of a stream do not depend on where it was cut into chunks: they are those of the whole
-- stream read in one piece.
pub read_sse-joined :
    (r : Reader) (chunks : List (List ℕ)) (last : List ℕ)
    → read_sse r chunks last ≡ read_sse r [] (joined chunks last)
unfolding read_sse joined
read_sse-joined r [] last = refl
read_sse-joined r (chunk ∷ chunks) last =
    rw (read_sse-joined (feed false r chunk).0 chunks last)
      (feed-append r chunk (joined chunks last))

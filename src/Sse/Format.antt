-- ===== src/Sse/Format.antt =====
-- sse.ts: the reader against the format it reads. What a server writes for an event gives that event.
use homelab_builder.Sse.Lines.{take_lines-lf, take_lines-line, take_lines-nil, is_one_line}
use homelab_builder.Sse.{
  with_line, space, trim_space, take_lines, colon, told, lf, field_of, set_field, event_field,
  data_field, Reader, join_lines, dispatch_line, dispatch, ServerEvent,
}
use homelab_builder.Base.{
  both-second, ◌∙◌, both-first, sym, inr, ap, inl, arith, ◌++◌, true, refl, map, if◌then◌else◌, all,
  Bool-cases, ◌≡◌, ◌∷◌, ◌==◌, Bool, ℕ, List, string_eq, nat_eq, int_eq,
}
use mathlib.Core.List.{append_assoc, append-nil, []}

unfoldable pub in_first : ℕ → List (List ℕ) → List (List ℕ)
in_first c [] = (c ∷ []) ∷ []
in_first c (line ∷ lines) = (c ∷ line) ∷ lines

unfoldable pub payload_lines : List ℕ → List (List ℕ)
payload_lines [] = [] ∷ []
payload_lines (c ∷ text) =
    if c == lf then [] ∷ payload_lines text else in_first c (payload_lines text)

unfoldable pub data_line : List ℕ → List ℕ
data_line line = data_field ++ colon ∷ space ∷ line

unfoldable pub event_line : List ℕ → List ℕ
event_line name = event_field ++ colon ∷ space ∷ name

-- What a server writes for an event: its name, its payload line by line, and a blank line.
unfoldable pub written_lines : ServerEvent → List (List ℕ)
written_lines e = event_line e.event ∷ (map data_line (payload_lines e.payload) ++ [] ∷ [])

unfoldable pub text_of : List (List ℕ) → List ℕ
text_of [] = []
text_of (line ∷ lines) = line ++ lf ∷ text_of lines

unfoldable pub all_lines : List ServerEvent → List (List ℕ)
all_lines [] = []
all_lines (e ∷ events) = written_lines e ++ all_lines events

unfoldable pub written : List ServerEvent → List ℕ
written events = text_of (all_lines events)

unfoldable pub is_written : List (List ℕ) → Bool
is_written lines = all is_one_line lines

pub take_lines-text_of :
    (lines : List (List ℕ))
    → is_written lines ≡ true
    → take_lines true [] (text_of lines) ≡ record { lines = lines; rest = [] }
unfolding text_of is_written
take_lines-text_of [] one = take_lines-nil true []
take_lines-text_of (line ∷ lines) one =
    take_lines-line true [] line (lf ∷ text_of lines)
      (both-first (is_one_line line) (all is_one_line lines) one)
    ∙ take_lines-lf true line lf (text_of lines) refl
    ∙ ap (with_line line)
        (take_lines-text_of lines (both-second (is_one_line line) (all is_one_line lines) one))

pub payload_lines-cases :
    (text : List ℕ)
    → (line : List ℕ) × (lines : List (List ℕ)) × (payload_lines text ≡ line ∷ lines)
unfolding payload_lines in_first
payload_lines-cases [] = ([], [], refl)
payload_lines-cases (c ∷ text) = elim (Bool-cases (c == lf)) [
  | inl e ↦ ([], payload_lines text, rw (e) refl)
  | inr e ↦ let found = payload_lines-cases text in (c ∷ found.0, found.1, rw (e, found.2) refl)
]

pub join_lines-in_first :
    (c : ℕ) (lines : List (List ℕ)) → join_lines (in_first c lines) ≡ c ∷ join_lines lines
unfolding join_lines in_first
join_lines-in_first c [] = refl
join_lines-in_first c (line ∷ []) = refl
join_lines-in_first c (line ∷ next ∷ lines) = refl

-- An empty first line shows as a line feed.
pub join_lines-break :
    (text : List ℕ) → join_lines ([] ∷ payload_lines text) ≡ lf ∷ join_lines (payload_lines text)
unfolding join_lines
join_lines-break text = let found = payload_lines-cases text in rw (found.2) refl

pub same_code : (c : ℕ) → c == lf ≡ true → c ≡ lf
same_code c e = ground arith

pub join_lines-payload_lines : (text : List ℕ) → join_lines (payload_lines text) ≡ text
unfolding payload_lines join_lines
join_lines-payload_lines [] = refl
join_lines-payload_lines (c ∷ text) = elim (Bool-cases (c == lf)) [
  | inl e ↦
      rw (e, join_lines-break text, join_lines-payload_lines text)
        (ap (λ d. d ∷ text) (sym (same_code c e)))
  | inr e ↦ rw (e, join_lines-in_first c (payload_lines text), join_lines-payload_lines text) refl
]

pub dispatch_line-event :
    (r : Reader) (name : List ℕ)
    → dispatch_line r (event_line name) ≡ (record r { event = name }, [])
unfolding dispatch_line event_line set_field field_of trim_space
dispatch_line-event r name = refl

pub dispatch_line-data :
    (r : Reader) (line : List ℕ)
    → dispatch_line r (data_line line) ≡ (record r { lines = r.lines ++ line ∷ [] }, [])
unfolding dispatch_line data_line set_field field_of trim_space
dispatch_line-data r line = refl

pub dispatch-data :
    (r : Reader) (lines : List (List ℕ))
    → dispatch r (map data_line lines) ≡ (record r { lines = r.lines ++ lines }, [])
unfolding dispatch
dispatch-data r [] = rw (append-nil r.lines) refl
dispatch-data r (line ∷ lines) =
    rw
      (
        dispatch_line-data r line,
        dispatch-data (record r { lines = r.lines ++ line ∷ [] }) lines,
        append_assoc r.lines (line ∷ []) lines,
      )
      refl

pub dispatch_line-blank :
    (r : Reader) → dispatch_line r [] ≡ (record r { event = []; lines = [] }, told r)
unfolding dispatch_line
dispatch_line-blank r = refl

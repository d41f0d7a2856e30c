-- ===== src/Sse.antt =====
-- frontend/src/features/assistant/lib/sse.ts: reading server-sent events from a stream that arrives in
-- chunks. A text is its code units; the chunks are what TextDecoder makes of the bytes.
pub mod Lines
pub mod Chunks
pub mod Format
pub mod RoundTrip
mod Tests
use homelab_builder.Text.{codes}
use homelab_builder.Base.{
  ◌&&◌, ◌==◌, ◌∷◌, ◌++◌, true, if◌then◌else◌, false, ℕ, [], List, Bool, string_eq, nat_eq, int_eq,
}

-- `\n`, `\r`, `:` and the space.
abbrev pub lf : ℕ
lf = 10

abbrev pub cr : ℕ
cr = 13

abbrev pub colon : ℕ
colon = 58

abbrev pub space : ℕ
space = 32

pub record ServerEvent : Type 0 where
  pub event : List ℕ
  pub payload : List ℕ

-- The three variables of the reader.
pub record Reader : Type 0 where
  pub buffer : List ℕ
  pub event : List ℕ
  pub lines : List (List ℕ)

unfoldable pub new_reader : Reader
new_reader = record { buffer = []; event = []; lines = [] }

pub record Split : Type 0 where
  pub lines : List (List ℕ)
  pub rest : List ℕ

abbrev pub with_line : List ℕ → Split → Split
with_line line s = record { lines = line ∷ s.lines; rest = s.rest }

-- The whole lines of the buffer and what is left of it; `line` is what was read since the last line
-- ended. A CR at the very end may be the first half of a CRLF, unless the stream has ended.
unfoldable pub take_lines : Bool → List ℕ → List ℕ → Split
take_lines final line [] = record { lines = []; rest = line }
take_lines final line (c ∷ []) = elim (c == lf) [
  | true ↦ record { lines = line ∷ []; rest = [] }
  | false ↦ elim (c == cr) [
    | true ↦
        if final
        then record { lines = line ∷ []; rest = [] }
        else record { lines = []; rest = line ++ c ∷ [] }
    | false ↦ record { lines = []; rest = line ++ c ∷ [] }
  ]
]
take_lines final line (c ∷ d ∷ text) = elim (c == lf) [
  | true ↦ with_line line (take_lines final [] (d ∷ text))
  | false ↦ elim (c == cr) [
    | true ↦ elim (d == lf) [
      | true ↦ with_line line (take_lines final [] text)
      | false ↦ with_line line (take_lines final [] (d ∷ text))
    ]
    | false ↦ take_lines final (line ++ c ∷ []) (d ∷ text)
  ]
]

-- `data.join('\n')`
unfoldable pub join_lines : List (List ℕ) → List ℕ
join_lines [] = []
join_lines (line ∷ []) = line
join_lines (line ∷ next ∷ lines) = line ++ lf ∷ join_lines (next ∷ lines)

abbrev pub equal_text : List ℕ → List ℕ → Bool
equal_text [] [] = true
equal_text (a ∷ x) (b ∷ y) = a == b && equal_text x y
equal_text _ _ = false

abbrev pub event_field : List ℕ
event_field = codes "event"

abbrev pub data_field : List ℕ
data_field = codes "data"

abbrev pub message_name : List ℕ
message_name = codes "message"

-- The field and the value of a line: what stands before and after its first colon.
unfoldable pub field_of : List ℕ → List ℕ × List ℕ
field_of [] = ([], [])
field_of (c ∷ text) =
    let rest = field_of text in if c == colon then ([], text) else (c ∷ rest.0, rest.1)

-- One space after the colon is no part of the value.
unfoldable pub trim_space : List ℕ → List ℕ
trim_space [] = []
trim_space (c ∷ text) = if c == space then text else c ∷ text

abbrev pub event_name : List ℕ → List ℕ
event_name [] = message_name
event_name (c ∷ name) = c ∷ name

-- An event that has data lines is told at the blank line.
abbrev pub told : Reader → List ServerEvent
told r = elim r.lines [
  | [] ↦ []
  | line ∷ lines ↦ record { event = event_name r.event; payload = join_lines (line ∷ lines) } ∷ []
]

unfoldable pub set_field : Reader → List ℕ → List ℕ → Reader
set_field r field value =
    if equal_text field event_field
    then record r { event = value }
    else if equal_text field data_field
    then record r { lines = r.lines ++ value ∷ [] }
    else r

unfoldable pub dispatch_line : Reader → List ℕ → Reader × List ServerEvent
dispatch_line r [] = (record r { event = []; lines = [] }, told r)
dispatch_line r (c ∷ line) =
    if c == colon
    then (r, [])
    else (set_field r (field_of (c ∷ line)).0 (trim_space (field_of (c ∷ line)).1), [])

unfoldable pub dispatch : Reader → List (List ℕ) → Reader × List ServerEvent
dispatch r [] = (r, [])
dispatch r (line ∷ lines) =
    let now = dispatch_line r line in
    let later = dispatch now.0 lines in (later.0, now.1 ++ later.1)

-- One chunk: `buffer += …` and the events of its whole lines.
unfoldable pub feed : Bool → Reader → List ℕ → Reader × List ServerEvent
feed final r chunk =
    let split = take_lines final [] (r.buffer ++ chunk) in
    dispatch (record r { buffer = split.rest }) split.lines

-- The loop of `readSSE` over the chunks, and what it does when the stream has ended with `last`, what
-- the decoder still held.
unfoldable pub read_sse : Reader → List (List ℕ) → List ℕ → List ServerEvent
read_sse r [] last = (feed true r last).1
read_sse r (chunk ∷ chunks) last =
    let now = feed false r chunk in now.1 ++ read_sse now.0 chunks last

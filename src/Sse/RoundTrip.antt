-- ===== src/Sse/RoundTrip.antt =====
-- sse.ts: the events that a server writes are the events that the reader tells.
use homelab_builder.Sse.Chunks.{read_sse-joined, feed-eq, dispatch-append, joined, with_buffer}
use homelab_builder.Sse.Lines.{is_one_line, breaks_line}
use homelab_builder.Sse.Format.{
  take_lines-text_of, join_lines-payload_lines, dispatch_line-blank, text_of, dispatch-data,
  payload_lines-cases, dispatch_line-event, written, data_line, all_lines, written_lines,
  payload_lines, is_written, in_first, event_line,
}
use homelab_builder.Sse.{
  lf, feed, event_name, equal_text, cr, told, Reader, read_sse, new_reader, dispatch, ServerEvent,
}
use homelab_builder.Base.{
  inr, ◌∙◌, sym, inl, ◌&&◌, refl, both-second, and-true, ap, Bool-cases, ◌∷◌, ◌++◌, map, both-first,
  arith, ◌==◌, true, not, false, all, [], ◌≡◌, ℕ, Bool, List, string_eq, nat_eq, int_eq,
}

told-written :
    (e : ServerEvent) (kept : List ℕ)
    → told (record { buffer = kept; event = e.event; lines = payload_lines e.payload })
      ≡ record { event = event_name e.event; payload = e.payload } ∷ []
told-written e kept =
    let found = payload_lines-cases e.payload in
    rw (found.2, sym (found.2)) (rw (join_lines-payload_lines e.payload) refl)

dispatch-written :
    (e : ServerEvent) (kept : List ℕ)
    → dispatch (record { buffer = kept; event = []; lines = [] }) (written_lines e) ≡ (
      record { buffer = kept; event = []; lines = [] },
      record { event = event_name e.event; payload = e.payload } ∷ [],
    )
unfolding written_lines dispatch
dispatch-written e kept =
    let start : Reader = record { buffer = kept; event = []; lines = [] } in
    let named : Reader = record { buffer = kept; event = e.event; lines = [] } in
    let whole : Reader = record {
      buffer = kept;
      event = e.event;
      lines = payload_lines e.payload;
    } in
    rw
      (
        dispatch_line-event start e.event,
        dispatch-append named (map data_line (payload_lines e.payload)) ([] ∷ []),
        dispatch-data named (payload_lines e.payload),
        dispatch_line-blank whole,
        told-written e kept,
      )
      refl

-- A name that is a line of its own, and a payload without CR.
unfoldable pub is_sendable : ServerEvent → Bool
is_sendable e =
    not (equal_text e.event []) && is_one_line e.event && all (λ c. not (c == cr)) e.payload

sendable_name : (name : List ℕ) → not (equal_text name []) ≡ true → event_name name ≡ name
sendable_name [] named = ground arith
sendable_name (c ∷ name) named = refl

told-sendable :
    (e : ServerEvent)
    → is_sendable e ≡ true
    → record { event = event_name e.event; payload = e.payload } ≡ e
unfolding is_sendable
told-sendable e good =
    ap (λ name. record { event = name; payload = e.payload })
      (sendable_name e.event (
        both-first (not (equal_text e.event [])) (is_one_line e.event) (
          both-first (not (equal_text e.event []) && is_one_line e.event)
            (all (λ c. not (c == cr)) e.payload) good)))

dispatch-all_lines :
    (events : List ServerEvent) (kept : List ℕ)
    → all is_sendable events ≡ true
    → (dispatch (record { buffer = kept; event = []; lines = [] }) (all_lines events)).1 ≡ events
unfolding dispatch all_lines
dispatch-all_lines [] kept good = refl
dispatch-all_lines (e ∷ events) kept good =
    rw
      (
        dispatch-append (record { buffer = kept; event = []; lines = [] }) (written_lines e)
            (all_lines events),
        dispatch-written e kept,
        dispatch-all_lines events kept (both-second (is_sendable e) (all is_sendable events) good),
      )
      (ap (λ first. first ∷ events)
        (told-sendable e (both-first (is_sendable e) (all is_sendable events) good)))

in_first-one :
    (c : ℕ) (lines : List (List ℕ))
    → breaks_line c ≡ false
    → is_written lines ≡ true
    → is_written (in_first c lines) ≡ true
unfolding in_first is_written is_one_line
in_first-one c [] plain one = ground arith
in_first-one c (line ∷ lines) plain one = ground arith

not_break : (c : ℕ) → c == lf ≡ false → not (c == cr) ≡ true → breaks_line c ≡ false
unfolding breaks_line
not_break c other plain = ground arith

payload_lines-one :
    (text : List ℕ) → all (λ c. not (c == cr)) text ≡ true → is_written (payload_lines text) ≡ true
unfolding payload_lines is_written is_one_line
payload_lines-one [] plain = refl
payload_lines-one (c ∷ text) plain = elim (Bool-cases (c == lf)) [
  | inl e ↦
      rw (e)
        (payload_lines-one text (both-second (not (c == cr)) (all (λ d. not (d == cr)) text) plain))
  | inr e ↦ rw (e) (
      in_first-one c (payload_lines text)
        (not_break c e (both-first (not (c == cr)) (all (λ d. not (d == cr)) text) plain))
        (payload_lines-one text
          (both-second (not (c == cr)) (all (λ d. not (d == cr)) text) plain)))
]

blank_line-one : is_written ([] ∷ []) ≡ true
unfolding is_written is_one_line
blank_line-one = refl

is_written-append :
    (lines later : List (List ℕ))
    → is_written lines ≡ true
    → is_written later ≡ true
    → is_written (lines ++ later) ≡ true
unfolding is_written
is_written-append [] later one more = more
is_written-append (line ∷ lines) later one more = ground (arith, is_written-append lines later)

is_written-data :
    (lines : List (List ℕ)) → is_written lines ≡ true → is_written (map data_line lines) ≡ true
unfolding is_written data_line is_one_line breaks_line
is_written-data [] one = refl
is_written-data (line ∷ lines) one =
    and-true (is_one_line line) (all is_one_line (map data_line lines))
      (both-first (is_one_line line) (all is_one_line lines) one)
      (is_written-data lines (both-second (is_one_line line) (all is_one_line lines) one))

event_line-one : (name : List ℕ) → is_one_line name ≡ true → is_one_line (event_line name) ≡ true
unfolding event_line is_one_line breaks_line
event_line-one name one = one

written_lines-one : (e : ServerEvent) → is_sendable e ≡ true → is_written (written_lines e) ≡ true
unfolding is_sendable written_lines is_written
written_lines-one e good =
    let named =
      both-first (not (equal_text e.event []) && is_one_line e.event)
        (all (λ c. not (c == cr)) e.payload) good in
    let lines = payload_lines-one e.payload (
      both-second (not (equal_text e.event []) && is_one_line e.event)
        (all (λ c. not (c == cr)) e.payload) good) in
    and-true (is_one_line (event_line e.event))
      (is_written (map data_line (payload_lines e.payload) ++ [] ∷ []))
      (event_line-one e.event
        (both-second (not (equal_text e.event [])) (is_one_line e.event) named))
      (is_written-append (map data_line (payload_lines e.payload)) ([] ∷ [])
        (is_written-data (payload_lines e.payload) lines) blank_line-one)

is_written-all_lines :
    (events : List ServerEvent)
    → all is_sendable events ≡ true
    → is_written (all_lines events) ≡ true
unfolding is_written all_lines
is_written-all_lines [] good = refl
is_written-all_lines (e ∷ events) good =
    is_written-append (written_lines e) (all_lines events)
      (written_lines-one e (both-first (is_sendable e) (all is_sendable events) good))
      (is_written-all_lines events (both-second (is_sendable e) (all is_sendable events) good))

read_sse-end : (r : Reader) (text : List ℕ) → read_sse r [] text ≡ (feed true r text).1
unfolding read_sse
read_sse-end r text = refl

feed-written :
    (events : List ServerEvent)
    → all is_sendable events ≡ true
    → (feed true new_reader (written events)).1 ≡ events
unfolding new_reader written with_buffer
feed-written events good =
    rw
      (
        feed-eq true new_reader (text_of (all_lines events)),
        take_lines-text_of (all_lines events) (is_written-all_lines events good),
      )
      (dispatch-all_lines events [] good)

-- Events that a server writes one after the other, each with a name that is not empty and is one line
-- and a payload without CR, are read back as they were, however the stream was cut.
pub read_sse-written :
    (events : List ServerEvent) (chunks : List (List ℕ)) (last : List ℕ)
    → all is_sendable events ≡ true
    → joined chunks last ≡ written events
    → read_sse new_reader chunks last ≡ events
read_sse-written events chunks last good same =
    read_sse-joined new_reader chunks last
    ∙ read_sse-end new_reader (joined chunks last)
    ∙ ap (λ text. (feed true new_reader text).1) same
    ∙ feed-written events good

-- ===== src/Sse/Tests.antt =====
-- sse.ts: tests, and the theorems of Sse at concrete inputs.
use homelab_builder.Sse.Lines.{breaks_line, is_one_line}
use homelab_builder.Sse.Format.{
  in_first, payload_lines, data_line, event_line, written_lines, all_lines, text_of, written,
}
use homelab_builder.Sse.RoundTrip.{read_sse-written, is_sendable}
use homelab_builder.Sse.Chunks.{read_sse-joined, joined}
use homelab_builder.Sse.{
  join_lines, trim_space, field_of, set_field, dispatch_line, cr, dispatch, take_lines, lf, codes,
  new_reader, feed, ServerEvent, read_sse,
}
use homelab_builder.Base.{refl, true, ◌≡◌, ◌++◌, all, [], ◌∷◌, ℕ, List, string_eq, nat_eq, int_eq}

abbrev two_events : List ServerEvent
two_events =
    record { event = codes "delta"; payload = codes "a" ++ lf ∷ codes " b" }
    ∷ record { event = codes "done"; payload = [] }
    ∷ []

-- Comment lines, a name without a colon, CRLF cut in two, and an event that the stream ends in.
abbrev cut_stream : List (List ℕ)
cut_stream =
    (codes ": hi" ++ lf ∷ codes "data:x" ++ cr ∷ [])
    ∷ (lf ∷ cr ∷ [])
    ∷ (lf ∷ codes "event: done" ++ cr ∷ codes "data: y" ++ lf ∷ [])
    ∷ []

reads_cut :
    read_sse new_reader cut_stream (lf ∷ [])
    ≡ record { event = codes "message"; payload = codes "x" }
      ∷ record { event = codes "done"; payload = codes "y" }
      ∷ []
unfolding read_sse feed new_reader take_lines dispatch dispatch_line set_field field_of trim_space
    join_lines
reads_cut = refl

drops_unfinished :
    read_sse new_reader cut_stream [] ≡ record { event = codes "message"; payload = codes "x" } ∷ []
unfolding read_sse feed new_reader take_lines dispatch dispatch_line set_field field_of trim_space
    join_lines
drops_unfinished = refl

read_sse-joined_example :
    read_sse new_reader cut_stream (lf ∷ []) ≡ read_sse new_reader [] (joined cut_stream (lf ∷ []))
read_sse-joined_example = read_sse-joined new_reader cut_stream (lf ∷ [])

abbrev sent : List ℕ
sent =
    codes "event: delta"
    ++ lf ∷ codes "data: a"
    ++ lf ∷ codes "data:  b"
    ++ lf ∷ lf ∷ codes "event: done"
    ++ lf ∷ codes "data: "

two_sendable : all is_sendable two_events ≡ true
unfolding is_sendable is_one_line breaks_line
two_sendable = refl

two_written : joined (sent ∷ (lf ∷ []) ∷ []) (lf ∷ []) ≡ written two_events
unfolding joined written text_of all_lines written_lines event_line data_line payload_lines in_first
two_written = refl

read_sse-written_example : read_sse new_reader (sent ∷ (lf ∷ []) ∷ []) (lf ∷ []) ≡ two_events
read_sse-written_example =
    read_sse-written two_events (sent ∷ (lf ∷ []) ∷ []) (lf ∷ []) two_sendable two_written

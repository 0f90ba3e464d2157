-- ===== src/Observer/Bounds.antt =====
-- The buffers of `responseObserver` in `Observe`.
use paracetamol.Base.{
  ℕ, ◌+◌, ◌≤◌, Bool, true, false, not, ◌&&◌, ◌||◌, some, List, [], ◌∷◌, ◌++◌, arith, leb, ltb,
  if◌then◌else◌, length, is_some, Bool-cases, Option-cases, inl, inr, length-append,
}
use paracetamol.Text.{Text, codes, equal, is_empty, has_prefix, split}
use paracetamol.Ledger.Usage.{Floats}
use paracetamol.Completion.Collector.{mark_partial, mark_stream_done, observe_response}
use paracetamol.Observer.State.{
  Json, ResponseObserver, max_observed_sse_event_bytes, max_observed_json_bytes,
}
use paracetamol.Observer.Json.{
  observe_json, observe_usage, observe_timings, note_first_output, raw_object, with_object,
  has_generated_delta,
}
use paracetamol.Observer.Framing.{
  joined, data_of, consume_sse_event, append_data, consume_sse_line, trim_return, complete_line,
  partial_line, observe_parts, observe_sse,
}
use paracetamol.Observer.Observe.{observe}

pub record IsBounded {F : Type 0} (o : ResponseObserver F) : Type 0 where
  pub line_short : length o.line ≤ max_observed_sse_event_bytes
  pub event_short : length o.event ≤ max_observed_sse_event_bytes
  pub json_short : length o.json_buffer ≤ max_observed_json_bytes

module _ {R F : Type 0} (json : Json R F) (floats : Floats F) (now : ℕ) where
  if-IsBounded :
      (b : Bool) (o p : ResponseObserver F)
      → IsBounded o
      → IsBounded p
      → IsBounded (if b then o else p)
  if-IsBounded true o p h k = h
  if-IsBounded false o p h k = k

  note-IsBounded :
      (o : ResponseObserver F) (raw : R)
      → IsBounded o
      → IsBounded (note_first_output json floats o now raw)
  unfolding note_first_output
  note-IsBounded o raw h =
      elim (Bool-cases
        (o.stream && not (is_some o.first_output_at) && has_generated_delta json floats raw)) [
          | inl first ↦ rw (first, note_first_output) (same h)
          | inr later ↦ rw (later, note_first_output) h
        ]
    where
      same : IsBounded o → IsBounded (record o { first_output_at = some now })
      same k = record {
        line_short = k.line_short;
        event_short = k.event_short;
        json_short = k.json_short;
      }

  usage-IsBounded :
      (o : ResponseObserver F) (raw : R)
      → IsBounded o
      → IsBounded (with_object json floats (observe_usage json floats) o raw)
  unfolding observe_usage
  usage-IsBounded o raw h = elim (Option-cases (raw_object json floats raw)) [
    | inl missing ↦ rw (missing, with_object) h
    | inr (object, found) ↦
        rw (found, with_object)
          (record {
            line_short = h.line_short;
            event_short = h.event_short;
            json_short = h.json_short;
          })
  ]

  timings-IsBounded :
      (o : ResponseObserver F) (raw : R)
      → IsBounded o
      → IsBounded (with_object json floats (observe_timings json floats) o raw)
  unfolding observe_timings
  timings-IsBounded o raw h = elim (Option-cases (raw_object json floats raw)) [
    | inl missing ↦ rw (missing, with_object) h
    | inr (object, found) ↦
        rw (found, with_object)
          (record {
            line_short = h.line_short;
            event_short = h.event_short;
            json_short = h.json_short;
          })
  ]

  observe_json-IsBounded :
      (o : ResponseObserver F) (v : Text)
      → IsBounded o
      → IsBounded (observe_json json floats o now v)
  unfolding observe_json
  observe_json-IsBounded o v h = elim (Option-cases (json.response_object v)) [
    | inl malformed ↦
        rw (malformed, observe_json)
          (record {
            line_short = h.line_short;
            event_short = h.event_short;
            json_short = h.json_short;
          })
    | inr (object, found) ↦
        let choices = object (codes "choices") in
        let seen = record o {
          completion = observe_response o.completion (json.unique_choices v) (json.choices choices);
        } in
        let noted = note_first_output json floats seen now choices in
        let counted =
          with_object json floats (observe_usage json floats) noted (object (codes "usage")) in
        rw (found, observe_json)
          (timings-IsBounded counted (object (codes "timings")) (
            usage-IsBounded noted (object (codes "usage")) (
              note-IsBounded seen choices (record {
                line_short = h.line_short;
                event_short = h.event_short;
                json_short = h.json_short;
              }))))
  ]

  event-IsBounded :
      (o : ResponseObserver F) → IsBounded o → IsBounded (consume_sse_event json floats now o)
  unfolding consume_sse_event
  event-IsBounded o h =
      let done = record o { completion = mark_stream_done o.completion } in
      let done-IsBounded : IsBounded done = record {
        line_short = h.line_short;
        event_short = h.event_short;
        json_short = h.json_short;
      } in
      let last =
        if-IsBounded (equal (json.trim_bytes o.event) (codes "[DONE]")) done
          (observe_json json floats o now o.event) done-IsBounded
          (observe_json-IsBounded o o.event h) in
      let known = if-IsBounded (not o.event_oversize && not (is_empty o.event)) _ o last h in
      record {
        line_short = known.line_short;
        event_short = omega arith;
        json_short = known.json_short;
      }

  append_data-IsBounded :
      (o : ResponseObserver F) (line : Text)
      → IsBounded o
      → IsBounded (append_data json floats now o line)
  unfolding append_data
  append_data-IsBounded o line h =
      elim (Bool-cases (not (has_prefix line (codes "data:")) || o.event_oversize)) [
        | inl skipped ↦ rw (skipped, append_data) h
        | inr taken ↦
            elim (Bool-cases
              (ltb max_observed_sse_event_bytes (length (joined o.event (data_of line))))) [
                | inl long ↦
                    rw (taken, append_data)
                      (rw long (record {
                        line_short = h.line_short;
                        event_short = omega arith;
                        json_short = h.json_short;
                      }))
                | inr short ↦
                    rw (taken, append_data)
                      (rw short (record {
                        line_short = h.line_short;
                        event_short = ground (arith, short);
                        json_short = h.json_short;
                      }))
              ]
      ]

  consume_sse_line-IsBounded :
      (o : ResponseObserver F) (line : Text)
      → IsBounded o
      → IsBounded (consume_sse_line json floats now o line)
  unfolding consume_sse_line
  consume_sse_line-IsBounded o raw h = elim (Bool-cases (is_empty (trim_return raw))) [
    | inl empty ↦ rw empty (event-IsBounded o h)
    | inr full ↦ rw full (append_data-IsBounded o (trim_return raw) h)
  ]

  complete_line-IsBounded :
      (o : ResponseObserver F) (v : Text)
      → IsBounded o
      → IsBounded (complete_line json floats now o v)
  unfolding complete_line
  complete_line-IsBounded o v h =
      let o' = record o { line = [] } in
      let fresh : IsBounded o' = record {
        line_short = omega arith;
        event_short = h.event_short;
        json_short = h.json_short;
      } in
      elim (Bool-cases (leb (length (o.line ++ v)) max_observed_sse_event_bytes)) [
        | inl short ↦
            let read = consume_sse_line-IsBounded o' (o.line ++ v) fresh in
            rw (short, complete_line)
              (record {
                line_short = omega arith;
                event_short = read.event_short;
                json_short = read.json_short;
              })
        | inr long ↦
            rw (long, complete_line)
              (record {
                line_short = omega arith;
                event_short = h.event_short;
                json_short = h.json_short;
              })
      ]

  partial_line-IsBounded :
      (o : ResponseObserver F) (v : Text)
      → IsBounded o
      → IsBounded (partial_line json floats now o v)
  unfolding partial_line
  partial_line-IsBounded o v h =
      elim (Bool-cases (leb (length (o.line ++ v)) max_observed_sse_event_bytes)) [
        | inl short ↦
            rw (short, partial_line)
              (record {
                line_short = ground (arith, short);
                event_short = h.event_short;
                json_short = h.json_short;
              })
        | inr long ↦
            rw (long, partial_line)
              (record {
                line_short = omega arith;
                event_short = h.event_short;
                json_short = h.json_short;
              })
      ]

  observe_parts-IsBounded :
      (o : ResponseObserver F) (parts : List Text)
      → IsBounded o
      → IsBounded (observe_parts json floats now o parts)
  unfolding observe_parts
  observe_parts-IsBounded o [] h = h
  observe_parts-IsBounded o (part ∷ []) h = elim (Bool-cases (is_empty part)) [
    | inl empty ↦ rw (empty, observe_parts) h
    | inr full ↦ rw (full, observe_parts) (partial_line-IsBounded o part h)
  ]
  observe_parts-IsBounded o (part ∷ next ∷ parts) h =
      observe_parts-IsBounded (complete_line json floats now o part) (next ∷ parts)
        (complete_line-IsBounded o part h)

  buffer-IsBounded :
      (o : ResponseObserver F) (value : Text)
      → IsBounded o
      → IsBounded (
          if ltb max_observed_json_bytes (length o.json_buffer + length value)
          then record o {
            json_buffer = [];
            json_oversized = true;
            completion = mark_partial o.completion;
          }
          else record o { json_buffer = o.json_buffer ++ value })
  buffer-IsBounded o value h =
      elim (Bool-cases (ltb max_observed_json_bytes (length o.json_buffer + length value))) [
        | inl long ↦ rw long (record {
          line_short = h.line_short;
          event_short = h.event_short;
          json_short = omega arith;
        })
        | inr short ↦ rw short (record {
          line_short = h.line_short;
          event_short = h.event_short;
          json_short = ground (arith, short, length-append o.json_buffer value);
        })
      ]

  -- Whatever is read, `Observe` keeps the line and the event within 256 KiB and the buffer for JSON
  -- within 1 MiB, given that they were so before.
  pub observe-IsBounded :
      (o : ResponseObserver F) (value : Text)
      → IsBounded o
      → IsBounded (observe json floats now o value)
  unfolding observe observe_sse
  observe-IsBounded o value h =
      if-IsBounded o.stream _ _ (observe_parts-IsBounded o (split b'\n' value) h)
        (if-IsBounded o.json_oversized _ _ h (buffer-IsBounded o value h))

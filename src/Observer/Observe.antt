-- ===== src/Observer/Observe.antt =====
-- `Observe` and `Finish` of `responseObserver`.
use paracetamol.Base.{
  ℕ, ◌+◌, ◌-◌, ◌^◌, true, not, ◌||◌, Option, none, some, [], ◌++◌, leb, ltb, if◌then◌else◌, length,
}
use paracetamol.Base.Int.{ℤ, pos, negsuc}
use paracetamol.Text.{Text, is_empty}
use paracetamol.Ledger.Usage.{Floats}
use paracetamol.Completion.Collector.{mark_partial, metadata}
use paracetamol.Observer.State.{
  Json, ResponseObserver, ResponseObservation, max_observed_json_bytes,
}
use paracetamol.Observer.Json.{observe_json, newer}
use paracetamol.Observer.Framing.{observe_sse, consume_sse_line, consume_sse_event}

abbrev pub max_int64 : ℕ
max_int64 = 2 ^ 63 - 1

-- `tokens.Input` from the timings: the prompt and what was cached, unless their sum overflows.
-- Two negative counts, where the difference would wrap around, are not met: `firstInteger` refuses
-- every negative value.
unfoldable pub fallback_input : Option ℤ → Option ℤ → Option ℤ
fallback_input none cached = none
fallback_input (some (negsuc n)) none = some (negsuc n)
fallback_input (some (negsuc n)) (some (negsuc m)) = none
fallback_input (some (negsuc n)) (some (pos m)) =
    if ltb n m then some (pos (m - n - 1)) else some (negsuc (n - m))
fallback_input (some (pos n)) none = some (pos n)
fallback_input (some (pos n)) (some (negsuc m)) = none
fallback_input (some (pos n)) (some (pos m)) =
    if leb n (max_int64 - m) then some (pos (n + m)) else none

module _ {R F : Type 0} (json : Json R F) (floats : Floats F) where
  -- `Observe` at the time `now`
  unfoldable pub observe : ℕ → ResponseObserver F → Text → ResponseObserver F
  unfolding observe_sse
  observe now o value =
      if o.stream
      then observe_sse json floats now o value
      else if o.json_oversized
      then o
      else if ltb max_observed_json_bytes (length o.json_buffer + length value)
      then record o {
        json_buffer = [];
        json_oversized = true;
        completion = mark_partial o.completion;
      }
      else record o { json_buffer = o.json_buffer ++ value }

  -- what `Finish` does with what is left of the stream
  unfoldable pub finish_stream : ℕ → ResponseObserver F → ResponseObserver F
  unfolding consume_sse_line consume_sse_event
  finish_stream now o =
      let left = not (is_empty o.line) || not (is_empty o.event) || o.event_oversize in
      let marked = if left then record o { completion = mark_partial o.completion } else o in
      let read = record (consume_sse_line json floats now marked o.line) { line = [] } in
      consume_sse_event json floats now (if is_empty o.line then marked else read)

  abbrev pub drained : ℕ → ResponseObserver F → ResponseObserver F
  drained now o =
      if o.stream
      then finish_stream now o
      else if o.json_oversized
      then o
      else observe_json json floats o now o.json_buffer

  unfoldable pub finish : ℕ → ResponseObserver F → ResponseObservation F
  unfolding finish_stream observe_json fallback_input metadata
  finish now o =
      let last = drained now o in
      record {
        tokens = record last.tokens {
          input =
              newer last.tokens.input
                (fallback_input last.timings.prompt_tokens last.tokens.cached);
          output = newer last.tokens.output last.timings.generated_tokens;
        };
        timings = last.timings;
        first_output_at = last.first_output_at;
        completion = metadata last.completion o.stream;
      }

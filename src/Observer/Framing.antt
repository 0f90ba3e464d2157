-- ===== src/Observer/Framing.antt =====
-- Server-sent events: the lines and events of `responseObserver`. A text is a list of bytes here.
use paracetamol.Base.{
  ℕ, true, false, not, ◌&&◌, ◌||◌, List, [], ◌∷◌, ◌++◌, leb, ltb, ◌==◌, if◌then◌else◌, length,
}
use paracetamol.Text.{Text, codes, equal, is_empty, has_prefix, drop, split}
use paracetamol.Ledger.Usage.{Floats}
use paracetamol.Completion.Collector.{mark_partial, mark_stream_done}
use paracetamol.Observer.State.{Json, ResponseObserver, max_observed_sse_event_bytes}
use paracetamol.Observer.Json.{observe_json}

-- `bytes.TrimSuffix` by a carriage return
unfoldable pub trim_return : Text → Text
trim_return [] = []
trim_return (c ∷ s) = let rest = trim_return s in if is_empty s && c == b'\r' then [] else c ∷ rest

-- what follows `data:`, without one space
unfoldable pub data_of : Text → Text
data_of line = elim (drop 5 line) [ [] ↦ [] | c ∷ s ↦ if c == b' ' then s else c ∷ s ]

-- the event with a line of data behind it
abbrev pub joined : Text → Text → Text
joined event line = if is_empty event then line else event ++ b'\n' ∷ line

module _ {R F : Type 0} (json : Json R F) (floats : Floats F) (now : ℕ) where
  -- `consumeSSEEvent`
  unfoldable pub consume_sse_event : ResponseObserver F → ResponseObserver F
  unfolding observe_json equal
  consume_sse_event o =
      let done = record o { completion = mark_stream_done o.completion } in
      let seen =
        if equal (json.trim_bytes o.event) (codes "[DONE]")
        then done
        else observe_json json floats o now o.event in
      let known = if not o.event_oversize && not (is_empty o.event) then seen else o in
      record known { event = []; event_oversize = false }

  -- the part of `consumeSSELine` behind the empty line
  unfoldable pub append_data : ResponseObserver F → Text → ResponseObserver F
  unfolding has_prefix data_of
  append_data o line =
      let event = joined o.event (data_of line) in
      if not (has_prefix line (codes "data:")) || o.event_oversize
      then o
      else if ltb max_observed_sse_event_bytes (length event)
      then record o { event = []; event_oversize = true; completion = mark_partial o.completion }
      else record o { event = event }

  -- `consumeSSELine`
  unfoldable pub consume_sse_line : ResponseObserver F → Text → ResponseObserver F
  unfolding trim_return consume_sse_event append_data
  consume_sse_line o raw =
      let line = trim_return raw in
      if is_empty line then consume_sse_event o else append_data o line

  -- the part of the loop of `observeSSE` for a newline, with what stands before it; the line is
  -- handed over whole, and its buffer is not read meanwhile
  unfoldable pub complete_line : ResponseObserver F → Text → ResponseObserver F
  unfolding consume_sse_line
  complete_line o value =
      let line = o.line ++ value in
      let o' = record o { line = [] } in
      if leb (length line) max_observed_sse_event_bytes
      then record (consume_sse_line o' line) { line = [] }
      else record o' { event_oversize = true; completion = mark_partial o.completion }

  -- the part for a value without a newline
  unfoldable pub partial_line : ResponseObserver F → Text → ResponseObserver F
  partial_line o value =
      let line = o.line ++ value in
      if leb (length line) max_observed_sse_event_bytes
      then record o { line = line }
      else record o { line = []; event_oversize = true; completion = mark_partial o.completion }

  -- the loop over the parts between the newlines, the last of which may be empty
  unfoldable pub observe_parts : ResponseObserver F → List Text → ResponseObserver F
  unfolding complete_line partial_line
  observe_parts o [] = o
  observe_parts o (part ∷ []) = if is_empty part then o else partial_line o part
  observe_parts o (part ∷ next ∷ parts) = observe_parts (complete_line o part) (next ∷ parts)

  -- `observeSSE`
  unfoldable pub observe_sse : ResponseObserver F → Text → ResponseObserver F
  unfolding observe_parts split
  observe_sse o value = observe_parts o (split b'\n' value)
